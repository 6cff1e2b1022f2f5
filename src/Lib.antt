-- ===== src/Lib.antt =====
-- Models and theorems for joinmarket-clientserver, a wallet and messaging system for coinjoins.
--
-- In a coinjoin a taker picks offers of makers, all put coins into one transaction, and each
-- maker earns a fee. The daemon (src/jmdaemon) keeps the channels to other bots and the book of
-- their offers; the client (src/jmclient) holds the wallet, chooses offers as a taker, answers as
-- a maker, and keeps a record of makers that misbehave. These parts are modelled here:
--
-- - Prelude: what the parts share. Tests has the Boolean tests and the class of types with
--   decided equality, Lists lists with native lengths, Int signed integers, Sort the stable sort
--   of Python's `sorted`, Dict a dict or an SQL table with a primary key, Text strings as code
--   points, Split their parts at a code point, Decimal
--   `str` and `int`.
-- - Penalty: `MakerPenaltyStore` of src/jmclient/maker_penalty_store.py. State has the two tables,
--   Queries the reads (`active_cooldowns`, `active_db_bans`, `active_hard_bans`), Updates the
--   writes (`record_stage2_cooldown`, `record_soft_failure`, `ban`, `unban`, `prune`); Lookup,
--   Invariant, Cooldowns and Bans have the theorems.
-- - Refresh: `RefreshStateStore` of src/jmdaemon/orderbookwatch.py, which paces the requests for
--   the orderbooks of the directory nodes. State has the table, Updates each method that writes,
--   Selection `select_next_refresh`; Rows, Choice, Invariant, Pacing and Missing have the theorems.
-- - Orderbook: `OrderbookWatch` of src/jmdaemon/orderbookwatch.py, the book of offers and bonds
--   with the directories that announce them. State has the tables, Peers the methods on directory
--   peers, Sources and Prune the rows of sources, Events the messages of makers, Visible the views
--   and their cache; History has the sequences of calls, Invariant and Steps the invariant, Bounds,
--   Cache, CacheSteps, Exact, Announce and Leave the theorems. `on_set_topic` and the reads of whole
--   tables are left out.
-- - Channels: `MessageChannelCollection` of src/jmdaemon/message_channel.py, which holds the
--   channels (IRC, onion) and knows on which of them each peer is talked to. State has the fields,
--   Presence the nicks and `flush_nicks`, Connection the triggers of connections, Send the private
--   messages, Public the broadcasts; Flush, Disconnect, Reachable, Leave, Welcome and Broadcast have the theorems.
-- - Messages: `MessageChannel` of src/jmdaemon/message_channel.py, which reads the commands of other
--   bots. Commands has the lists of src/jmdaemon/protocol.py, Orders the texts that are sent, Receive
--   `on_pubmsg`, Private `on_privmsg` and `on_verified_privmsg`; Lines, PublicTrip, CancelTrip,
--   PrivateTrip and Signed have the round trips, and Delivered what the book of offers does with the
--   calls of a channel.
-- - Coins: the coin selections of src/jmclient/support.py in Select, their theorems in Enough.
-- - Offers: the fees (Fees), the exclusions of makers (Exclusions) and the choice of offers for an
--   amount (Choose) of src/jmclient/support.py, with theorems in Fees, Exclusions, Suitable and
--   Outcome and Liquidity. What picks one offer, and the limits in floating-point numbers, are parameters.
-- - Wallet: `UTXOManager` of src/jmclient/wallet.py, the coins of each mixdepth and which of them
--   are disabled, in Utxos, and its theorems in Balance.
-- - Maker: `verify_unsigned_tx` of src/jmclient/maker.py, with which a maker checks the
--   transaction before it signs, in Verify, and its theorems in Payment; in Orders `modify_orders`
--   and `on_tx_unconfirmed` of src/jmclient/yieldgenerator.py, with their theorem.
-- - Taker: `Taker` of src/jmclient/taker.py. State has its fields, Ioauth the checks of the makers'
--   answers, Build `receive_utxos`, Signatures `on_sig`, Schedule the entry of `initialize` and
--   `prepare_maker_selection_retry`; Verified, Balance, Fee, Contains, Agreement, Complete and
--   Attempts have the theorems.
-- - Podle: src/jmclient/podle.py. State has the proof that `PoDLE.generate_podle` makes and `getNUMS`,
--   Commitments the store, `get_podle_tries` and `generate_podle`; Fresh and History have the
--   theorems. The curve and the hash are parameters.
-- - Tests: runs at concrete inputs.
--
-- Each method is a function from the state and the arguments to the new state; a call to another
-- part is an element of a list of effects. A method that holds a lock or runs one database
-- transaction is one step, and a history is a list of steps. An exception is `none`, or a
-- constructor of the result. Amounts are natural numbers of satoshis, or integers where the
-- source subtracts; times are integers of seconds and arguments of the methods that read the
-- clock. A `Decimal` is an integer coefficient and a number of decimal places; its product with an
-- amount is rounded half to even, to 28 digits and then to an integer. The numbers of a seen offer
-- are taken to be plain numerals. All loops are structural recursions over their lists, so no fuel is
-- needed; the count of excess digits takes the number itself as fuel. What comes
-- from outside (encryption, base64, the identity of a host, random choices) is a parameter.
--
-- Not modelled: the taker's choice of coins and its broadcast, the wallet's keys and storage, the
-- verification of commitments, the transports, the interfaces to a node, and the user interfaces; SQL files,
-- locks and logging are left out of what is modelled.
pub mod Prelude
pub mod Penalty
pub mod Podle
pub mod Refresh
pub mod Orderbook
pub mod Messages
pub mod Taker
pub mod Channels
pub mod Coins
pub mod Offers
pub mod Wallet
pub mod Maker
pub mod Tests
