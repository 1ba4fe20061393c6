-- ===== src/Tests/PolylineTests.antt =====
-- The route of the format's documentation: (38.5, -120.2), (40.7, -120.95), (43.252, -126.453).
use travel_planner.Base.{◌≡◌, refl, List, [], ◌∷◌, codes, arith}
use travel_planner.Base.Int.{ℤ, pos, negsuc, ◌+ℤ◌, ◌-ℤ◌}
use travel_planner.Polyline.{read_value, delta, points_from, decode_polyline}
use travel_planner.Polyline.RoundTrip.{encode_from, IsNear, decode_polyline-encode}

abbrev drive : List (ℤ × ℤ)
drive =
    (pos 3850000, negsuc 12019999)
    ∷ (pos 4070000, negsuc 12094999)
    ∷ (pos 4325200, negsuc 12645299)
    ∷ []

encode_test : encode_from (pos 0) (pos 0) drive ≡ codes "_p~iF~ps|U_ulLnnqC_mqNvxq`@"
unfolding ◌-ℤ◌
encode_test = refl

decode_test : decode_polyline (codes "_p~iF~ps|U_ulLnnqC_mqNvxq`@") ≡ drive
unfolding decode_polyline points_from read_value delta ◌+ℤ◌
decode_test = refl

near : IsNear (pos 0) (pos 0) ((pos 3850000, negsuc 12019999) ∷ [])
unfolding ◌-ℤ◌
near = (omega arith, omega arith, tt)

decode_polyline-encode_example :
    decode_polyline (encode_from (pos 0) (pos 0) ((pos 3850000, negsuc 12019999) ∷ []))
    ≡ (pos 3850000, negsuc 12019999) ∷ []
decode_polyline-encode_example = decode_polyline-encode ((pos 3850000, negsuc 12019999) ∷ []) near
