-- ===== src/Messages/Commands.antt =====
-- The lists of commands in jmdaemon/protocol.py.
use joinmarket_clientserver.Prelude.Text.{Text, codes}
use joinmarket_clientserver.Prelude.{List, [], ℕ, ◌++◌, ◌∷◌}

abbrev pub command_prefix : ℕ
command_prefix = 33

abbrev pub space : ℕ
space = 32

abbrev pub offername_list : List Text
offername_list =
    codes "reloffer"
    ∷ codes "absoffer"
    ∷ codes "swreloffer"
    ∷ codes "swabsoffer"
    ∷ codes "sw0reloffer"
    ∷ codes "sw0absoffer"
    ∷ []

abbrev pub fidelity_bond_cmd_list : List Text
fidelity_bond_cmd_list = codes "tbond" ∷ []

abbrev pub encrypted_commands : List Text
encrypted_commands = codes "auth" ∷ codes "ioauth" ∷ codes "tx" ∷ codes "sig" ∷ []

abbrev pub commitment_broadcast_list : List Text
commitment_broadcast_list = codes "hp2" ∷ []

abbrev pub plaintext_commands : List Text
plaintext_commands =
    (codes "fill" ∷ codes "error" ∷ codes "pubkey" ∷ codes "orderbook" ∷ codes "push" ∷ [])
    ++ offername_list
    ++ commitment_broadcast_list
