-- ===== src/Orderbook/Peers.antt =====
-- What `OrderbookWatch` records of the directories: the methods on `directory_peers`.
use joinmarket_clientserver.Prelude.Split.{split}
use joinmarket_clientserver.Prelude.Dict.{insert, lookup, update}
use joinmarket_clientserver.Prelude.Text.{Text, codes, is_empty, text_eq}
use joinmarket_clientserver.Prelude.{
  Bool, List, Option, [], false, if◌then◌else◌, none, not, some, some_of, ℤ, ◌&&◌, ◌+◌, ◌==◌, ◌||◌,
  ◌∷◌, ℕ_eq,
}
use joinmarket_clientserver.Orderbook.State.{
  Book, Connection, DirectoryPeer, Peers, connected, disconnected, same_connection, unknown,
}

abbrev pub new_directory_peer : DirectoryPeer
new_directory_peer = record {
  first_connected_at = none;
  last_connected_at = none;
  last_disconnected_at = none;
  last_seen_at = none;
  last_message_at = none;
  last_pubmsg_at = none;
  last_orderbook_request_seen_at = none;
  last_orderbook_request_at = none;
  last_orderbook_response_at = none;
  last_successful_refresh_at = none;
  last_refresh_id = none;
  rx_message_count = 0;
  orderbook_request_rx_count = 0;
  last_non_orderbook_message_at = none;
  status = unknown;
}

unfoldable pub ensure_directory_peer : Text → Peers → Peers
ensure_directory_peer d peers = elim (lookup d peers) [
  | none ↦ insert d new_directory_peer peers
  | some p ↦ peers
]

abbrev pub status_of : Text → Peers → Connection
status_of d peers = elim (lookup d peers) [ none ↦ unknown | some p ↦ p.status ]

-- `_set_directory_peer_fields_locked`, where `f` sets the fields: a changed status makes the caches
-- stale.
unfoldable pub set_directory_peer_fields : Text → (DirectoryPeer → DirectoryPeer) → Book → Book
unfolding ensure_directory_peer
set_directory_peer_fields d f s =
    let there = ensure_directory_peer d s.directory_peers in
    let set = update d f there in
    if is_empty d then s else record s {
      directory_peers = set;
      visibility_cache_dirty =
          s.visibility_cache_dirty || not (same_connection (status_of d set) (status_of d there));
    }

-- The refresh id of a directory; `ids` is what `_make_initial_refresh_id` makes for it.
unfoldable pub get_or_create_refresh_id : (Text → Text) → Text → Peers → Peers × Text
unfolding ensure_directory_peer
get_or_create_refresh_id ids d peers =
    let there = ensure_directory_peer d peers in
    elim (lookup d there) [
      | none ↦ (there, ids d)
      | some p ↦ elim p.last_refresh_id [
        | some refresh_id ↦ (there, refresh_id)
        | none ↦ (update d (λ q. record q { last_refresh_id = some (ids d) }) there, ids d)
      ]
    ]

abbrev pub or_now : Option ℤ → ℤ → Option ℤ
or_now none now = some now
or_now (some at) now = some at

abbrev pub with_connect : ℤ → DirectoryPeer → DirectoryPeer
with_connect now p = record p {
  last_connected_at = some now;
  status = connected;
  first_connected_at = or_now p.first_connected_at now;
}

unfoldable pub record_directory_connected : Text → ℤ → Book → Book
unfolding ensure_directory_peer set_directory_peer_fields
record_directory_connected d now s =
    set_directory_peer_fields d (with_connect now)
      (record s { directory_peers = ensure_directory_peer d s.directory_peers })

abbrev pub with_disconnect : ℤ → DirectoryPeer → DirectoryPeer
with_disconnect now p = record p { last_disconnected_at = some now; status = disconnected }

unfoldable pub record_directory_disconnected : Text → ℤ → Book → Book
unfolding set_directory_peer_fields
record_directory_disconnected d now s = set_directory_peer_fields d (with_disconnect now) s

abbrev given_or : Option Text → Option Text → Option Text
given_or none old = old
given_or (some refresh_id) old = some refresh_id

abbrev pub with_request : Option Text → ℤ → DirectoryPeer → DirectoryPeer
with_request refresh_id now p = record p {
  last_orderbook_request_at = some now;
  status = connected;
  last_refresh_id = given_or refresh_id p.last_refresh_id;
}

unfoldable pub record_orderbook_request : Text → Option Text → ℤ → Book → Book
unfolding set_directory_peer_fields
record_orderbook_request d refresh_id now s =
    set_directory_peer_fields d (with_request refresh_id now) s

abbrev pub with_refresh : Option Text → ℤ → DirectoryPeer → DirectoryPeer
with_refresh refresh_id now p = record p {
  last_successful_refresh_at = some now;
  status = connected;
  last_refresh_id = given_or refresh_id p.last_refresh_id;
}

unfoldable pub record_successful_refresh : Text → Option Text → ℤ → Book → Book
unfolding set_directory_peer_fields
record_successful_refresh d refresh_id now s =
    set_directory_peer_fields d (with_refresh refresh_id now) s

abbrev pub with_response : ℤ → DirectoryPeer → DirectoryPeer
with_response now p = record p {
  last_seen_at = some now;
  last_orderbook_response_at = some now;
  status = connected;
}

unfoldable pub record_directory_response : Text → ℤ → Book → Book
unfolding set_directory_peer_fields
record_directory_response d now s = set_directory_peer_fields d (with_response now) s

-- `command.split(" ")[0] == "orderbook"`
abbrev starts_with_orderbook : List Text → Bool
starts_with_orderbook [] = false
starts_with_orderbook (word ∷ words) = word == codes "orderbook"

-- `_pubmsg_has_orderbook_request`: some command after a prefix is `orderbook`.
unfoldable pub pubmsg_has_orderbook_request : Text → Bool
unfolding split
pubmsg_has_orderbook_request [] = false
pubmsg_has_orderbook_request (c ∷ message) =
    c == b'!'
    && some_of (λ command. starts_with_orderbook (split command b' ')) (split message b'!')

abbrev pub with_message : Bool → Bool → ℤ → DirectoryPeer → DirectoryPeer
with_message is_pubmsg request now p = record p {
  last_message_at = some now;
  status = connected;
  last_pubmsg_at = if is_pubmsg then some now else p.last_pubmsg_at;
  last_orderbook_request_seen_at = if request then some now else p.last_orderbook_request_seen_at;
  last_non_orderbook_message_at = if request then p.last_non_orderbook_message_at else some now;
}

abbrev pub with_count : Bool → DirectoryPeer → DirectoryPeer
with_count request p = record p {
  rx_message_count = p.rx_message_count + 1;
  orderbook_request_rx_count =
      if request then p.orderbook_request_rx_count + 1 else p.orderbook_request_rx_count;
}

unfoldable pub record_directory_message : Text → Bool → Text → ℤ → Book → Book
unfolding set_directory_peer_fields pubmsg_has_orderbook_request
record_directory_message d is_pubmsg message now s =
    let request = is_pubmsg && pubmsg_has_orderbook_request message in
    let seen = set_directory_peer_fields d (with_message is_pubmsg request now) s in
    record seen { directory_peers = update d (with_count request) seen.directory_peers }

unfoldable pub on_message_seen : Bool → Text → Option Text → ℤ → Book → Book
unfolding record_directory_message
on_message_seen is_pubmsg message none now s = s
on_message_seen is_pubmsg message (some d) now s =
    if is_empty d then s else record_directory_message d is_pubmsg message now s
