-- ===== src/GoStd/Ip/Laws.antt =====
-- Runs of the address routines.
use cluster_machine_approver.Prelude.{ℕ, ◌≡◌, refl, [], ◌∷◌, true, false}
use cluster_machine_approver.GoStd.Ip.{Ip, IpNet, to_string, net_contains}

abbrev loopback6 : Ip
loopback6 = 0 ∷ 0 ∷ 0 ∷ 0 ∷ 0 ∷ 0 ∷ 0 ∷ 0 ∷ 0 ∷ 0 ∷ 0 ∷ 0 ∷ 0 ∷ 0 ∷ 0 ∷ 1 ∷ []

abbrev doc6 : Ip
doc6 = 32 ∷ 1 ∷ 13 ∷ 184 ∷ 0 ∷ 0 ∷ 0 ∷ 1 ∷ 0 ∷ 0 ∷ 0 ∷ 0 ∷ 0 ∷ 0 ∷ 16 ∷ 255 ∷ []

abbrev mapped : Ip
mapped = 0 ∷ 0 ∷ 0 ∷ 0 ∷ 0 ∷ 0 ∷ 0 ∷ 0 ∷ 0 ∷ 0 ∷ 255 ∷ 255 ∷ 10 ∷ 0 ∷ 152 ∷ 205 ∷ []

abbrev ten_net : IpNet
ten_net = record { ip = 10 ∷ 0 ∷ 0 ∷ 0 ∷ []; mask = 255 ∷ 0 ∷ 0 ∷ 0 ∷ [] }

to_string_tests :
    (to_string (10 ∷ 0 ∷ 152 ∷ 205 ∷ []) ≡ "10.0.152.205")
    × (to_string mapped ≡ "10.0.152.205")
    × (to_string loopback6 ≡ "::1")
    × (to_string doc6 ≡ "2001:db8:0:1::10ff")
    × (to_string [] ≡ "<nil>")
    × (to_string (1 ∷ 171 ∷ []) ≡ "?01ab")
unfolding to_string
to_string_tests = (refl, refl, refl, refl, refl, refl)

net_contains_tests :
    (net_contains ten_net mapped ≡ true)
    × (net_contains ten_net (11 ∷ 0 ∷ 0 ∷ 1 ∷ []) ≡ false)
    × (net_contains ten_net loopback6 ≡ false)
unfolding net_contains
net_contains_tests = (refl, refl, refl)

-- An IPv4 address has the same text in its four bytes and in its sixteen, and so has each of them in
-- a comparison by texts.
pub to_string-mapped :
    (a b c d : ℕ)
    → to_string (0 ∷ 0 ∷ 0 ∷ 0 ∷ 0 ∷ 0 ∷ 0 ∷ 0 ∷ 0 ∷ 0 ∷ 255 ∷ 255 ∷ a ∷ b ∷ c ∷ d ∷ [])
      ≡ to_string (a ∷ b ∷ c ∷ d ∷ [])
unfolding to_string
to_string-mapped a b c d = refl
