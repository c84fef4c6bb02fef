-- ===== src/GoStd/ParseCidr/Tests.antt =====
-- Runs of the parsers of addresses and networks.
use cluster_machine_approver.Prelude.{◌≡◌, refl, [], ◌∷◌, external, ok, err}
use cluster_machine_approver.GoStd.ParseIp.{parse_ip}
use cluster_machine_approver.GoStd.ParseCidr.{parse_cidr}

parse_ip_v4 :
    (parse_ip "10.0.152.205"
      ≡ 0 ∷ 0 ∷ 0 ∷ 0 ∷ 0 ∷ 0 ∷ 0 ∷ 0 ∷ 0 ∷ 0 ∷ 255 ∷ 255 ∷ 10 ∷ 0 ∷ 152 ∷ 205 ∷ [])
    × (parse_ip "10.0.152" ≡ [])
    × (parse_ip "10.0.152.256" ≡ [])
    × (parse_ip "10.0.152.05" ≡ [])
    × (parse_ip "10..152.5" ≡ [])
    × (parse_ip "10.0.152.5." ≡ [])
unfolding parse_ip
parse_ip_v4 = (refl, refl, refl, refl, refl, refl)

parse_ip_v6 :
    (parse_ip "2001:db8:0:1::10FF"
      ≡ 32 ∷ 1 ∷ 13 ∷ 184 ∷ 0 ∷ 0 ∷ 0 ∷ 1 ∷ 0 ∷ 0 ∷ 0 ∷ 0 ∷ 0 ∷ 0 ∷ 16 ∷ 255 ∷ [])
    × (parse_ip "::" ≡ 0 ∷ 0 ∷ 0 ∷ 0 ∷ 0 ∷ 0 ∷ 0 ∷ 0 ∷ 0 ∷ 0 ∷ 0 ∷ 0 ∷ 0 ∷ 0 ∷ 0 ∷ 0 ∷ [])
    × (parse_ip "::ffff:10.0.0.1"
        ≡ 0 ∷ 0 ∷ 0 ∷ 0 ∷ 0 ∷ 0 ∷ 0 ∷ 0 ∷ 0 ∷ 0 ∷ 255 ∷ 255 ∷ 10 ∷ 0 ∷ 0 ∷ 1 ∷ [])
    × (parse_ip "fe80::" ≡ 254 ∷ 128 ∷ 0 ∷ 0 ∷ 0 ∷ 0 ∷ 0 ∷ 0 ∷ 0 ∷ 0 ∷ 0 ∷ 0 ∷ 0 ∷ 0 ∷ 0 ∷ 0 ∷ [])
    × (parse_ip "1:2:3:4:5:6:7:8"
        ≡ 0 ∷ 1 ∷ 0 ∷ 2 ∷ 0 ∷ 3 ∷ 0 ∷ 4 ∷ 0 ∷ 5 ∷ 0 ∷ 6 ∷ 0 ∷ 7 ∷ 0 ∷ 8 ∷ [])
    × (parse_ip "1:2:3:4:5:6:7:8:9" ≡ [])
    × (parse_ip "1::2::3" ≡ [])
    × (parse_ip "1:2:3:4:5:6:7::8" ≡ [])
    × (parse_ip "fe80::1%eth0" ≡ [])
    × (parse_ip ":1" ≡ [])
    × (parse_ip "12345::" ≡ [])
unfolding parse_ip
parse_ip_v6 = (refl, refl, refl, refl, refl, refl, refl, refl, refl, refl, refl)

parse_cidr_tests :
    (parse_cidr "10.1.2.3/8"
      ≡ ok (record { ip = 10 ∷ 0 ∷ 0 ∷ 0 ∷ []; mask = 255 ∷ 0 ∷ 0 ∷ 0 ∷ [] }))
    × (parse_cidr "10.1.255.3/20"
        ≡ ok (record { ip = 10 ∷ 1 ∷ 240 ∷ 0 ∷ []; mask = 255 ∷ 255 ∷ 240 ∷ 0 ∷ [] }))
    × (parse_cidr "10.1.2.3" ≡ err (external "invalid CIDR address"))
    × (parse_cidr "10.1.2.3/33" ≡ err (external "invalid CIDR address"))
    × (parse_cidr "10.1.2.3/" ≡ err (external "invalid CIDR address"))
unfolding parse_cidr
parse_cidr_tests = (refl, refl, refl, refl, refl)
