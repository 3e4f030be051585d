-- ===== src/Daemon/Names.antt =====
-- The names of directives and of relay types in src/relayd.c, src/serverd.c and src/checkconf.c, in
-- ASCII.
use miredo.Prelude.{ℕ, List, [], ◌∷◌}

-- "SyslogFacility"
abbrev pub syslog_facility : List ℕ
syslog_facility = 83 ∷ 121 ∷ 115 ∷ 108 ∷ 111 ∷ 103 ∷ 70 ∷ 97 ∷ 99 ∷ 105 ∷ 108 ∷ 105 ∷ 116 ∷ 121 ∷ []

-- "RelayType"
abbrev pub relay_type : List ℕ
relay_type = 82 ∷ 101 ∷ 108 ∷ 97 ∷ 121 ∷ 84 ∷ 121 ∷ 112 ∷ 101 ∷ []

-- "ServerAddress"
abbrev pub server_address : List ℕ
server_address = 83 ∷ 101 ∷ 114 ∷ 118 ∷ 101 ∷ 114 ∷ 65 ∷ 100 ∷ 100 ∷ 114 ∷ 101 ∷ 115 ∷ 115 ∷ []

-- "ServerAddress2"
abbrev pub server_address2 : List ℕ
server_address2 =
    83 ∷ 101 ∷ 114 ∷ 118 ∷ 101 ∷ 114 ∷ 65 ∷ 100 ∷ 100 ∷ 114 ∷ 101 ∷ 115 ∷ 115 ∷ 50 ∷ []

-- "Prefix"
abbrev pub prefix_directive : List ℕ
prefix_directive = 80 ∷ 114 ∷ 101 ∷ 102 ∷ 105 ∷ 120 ∷ []

-- "InterfaceMTU"
abbrev pub interface_mtu : List ℕ
interface_mtu = 73 ∷ 110 ∷ 116 ∷ 101 ∷ 114 ∷ 102 ∷ 97 ∷ 99 ∷ 101 ∷ 77 ∷ 84 ∷ 85 ∷ []

-- "BindAddress"
abbrev pub bind_address : List ℕ
bind_address = 66 ∷ 105 ∷ 110 ∷ 100 ∷ 65 ∷ 100 ∷ 100 ∷ 114 ∷ 101 ∷ 115 ∷ 115 ∷ []

-- "BindPort"
abbrev pub bind_port : List ℕ
bind_port = 66 ∷ 105 ∷ 110 ∷ 100 ∷ 80 ∷ 111 ∷ 114 ∷ 116 ∷ []

-- "InterfaceName"
abbrev pub interface_name : List ℕ
interface_name = 73 ∷ 110 ∷ 116 ∷ 101 ∷ 114 ∷ 102 ∷ 97 ∷ 99 ∷ 101 ∷ 78 ∷ 97 ∷ 109 ∷ 101 ∷ []

-- "ServerBindAddress"
abbrev pub server_bind_address : List ℕ
server_bind_address =
    83 ∷ 101 ∷ 114 ∷ 118 ∷ 101 ∷ 114 ∷ 66 ∷ 105 ∷ 110 ∷ 100 ∷ 65 ∷ 100 ∷ 100 ∷ 114 ∷ 101 ∷ 115 ∷ 115
    ∷ []

-- "ServerBindAddress2"
abbrev pub server_bind_address2 : List ℕ
server_bind_address2 =
    83 ∷ 101 ∷ 114 ∷ 118 ∷ 101 ∷ 114 ∷ 66 ∷ 105 ∷ 110 ∷ 100 ∷ 65 ∷ 100 ∷ 100 ∷ 114 ∷ 101 ∷ 115 ∷ 115
    ∷ 50 ∷ []

-- "client"
abbrev pub client_word : List ℕ
client_word = 99 ∷ 108 ∷ 105 ∷ 101 ∷ 110 ∷ 116 ∷ []

-- "autoclient"
abbrev pub autoclient_word : List ℕ
autoclient_word = 97 ∷ 117 ∷ 116 ∷ 111 ∷ 99 ∷ 108 ∷ 105 ∷ 101 ∷ 110 ∷ 116 ∷ []

-- "relay"
abbrev pub relay_word : List ℕ
relay_word = 114 ∷ 101 ∷ 108 ∷ 97 ∷ 121 ∷ []

-- "cone"
abbrev pub cone_word : List ℕ
cone_word = 99 ∷ 111 ∷ 110 ∷ 101 ∷ []

-- "restricted"
abbrev pub restricted_word : List ℕ
restricted_word = 114 ∷ 101 ∷ 115 ∷ 116 ∷ 114 ∷ 105 ∷ 99 ∷ 116 ∷ 101 ∷ 100 ∷ []
