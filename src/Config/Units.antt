-- ===== src/Config/Units.antt =====
-- config.rs: durations and sizes, at the values of its tests and at a large one.
use iedb_agent.Base.{◌^◌, ◌≡◌, refl}
use iedb_agent.Base.Int.{pos}
use iedb_agent.Base.Text.{codes}
use iedb_agent.Config.{parse_duration, parse_bytes}

parse_duration_values :
    (parse_duration (codes "10m") ≡ pos 600)
    × (parse_duration (codes " 90s ") ≡ pos 90)
    × (parse_duration (codes "abc") ≡ pos 600)
    × (parse_duration (codes "") ≡ pos 600)
    × (parse_duration (codes "xm") ≡ pos 600)
unfolding parse_duration
parse_duration_values = (refl, refl, refl, refl, refl)

parse_bytes_values :
    (parse_bytes (2 ^ 64) (codes "512MB") ≡ 536870912)
    × (parse_bytes (2 ^ 64) (codes "2gb") ≡ 2147483648)
    × (parse_bytes (2 ^ 64) (codes "") ≡ 536870912)
    × (parse_bytes (2 ^ 32) (codes "4GB") ≡ 0)
unfolding parse_bytes
parse_bytes_values = (refl, refl, refl, refl)
