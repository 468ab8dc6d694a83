-- ===== src/Station/Buffer/Examples.antt =====
-- A callsign that is written over an older one.
use airspyhf_wsprd.Common.{ℕ, true, some, List, [], map, length, codes, to_upper, replicate}
use airspyhf_wsprd.Station.{normalize_callsign}
use airspyhf_wsprd.Station.Buffer.{write_callsign}
use airspyhf_wsprd.Station.Buffer.Outcome.{AgreeOn, filled, write_callsign_lem}

abbrev used_bytes : List ℕ
used_bytes = replicate 13 1

write_callsign_lem_example :
    AgreeOn
      (map to_upper (codes "k1abc"))
      (filled [] (codes "k1abc") used_bytes)
      (write_callsign used_bytes (codes "k1abc"))
      (normalize_callsign true (length used_bytes) (some (codes "k1abc")))
write_callsign_lem_example = write_callsign_lem used_bytes (codes "k1abc")
