-- ===== src/Tests/ImageTests.antt =====
-- A photo that is shrunk and uploaded.
use travel_planner.Base.{
  ◌≡◌, refl, [], ◌∷◌, ℕ, ◌≡◌, ◌≤◌, ◌+◌, ◌*◌, ◌/◌, true, none, some, codes, arith, ap, if◌then◌else◌,
  code_eq,
}
use native.Mathlib.Nat.{div-add-mod, mod-lt}
use travel_planner.Reply.{Reply, answered, failed}
use travel_planner.Images.{
  File, Browser, Server, PhotoTarget, scaled, max_edge, handle_files, upload_photo, prepare_image,
  send_image, put_image,
}
use travel_planner.Images.Bounds.{IsNearest, scaled-bounded}
use travel_planner.Images.Files.{IsAccounted, handle_files-IsAccounted}

-- `Math.round` of an exact quotient.
abbrev rounded : ℕ → ℕ → ℕ
rounded w m = (2 * (1600 * w) + m) / (2 * m)

rounded-IsNearest : IsNearest rounded
unfolding IsNearest
rounded-IsNearest w m some_m =
    let parts = div-add-mod (2 * (1600 * w) + m) (2 * m) in
    let rest = mod-lt (2 * (1600 * w) + m) {m = 2 * m} (omega (arith, some_m)) in
    (omega (arith, parts, rest), omega (arith, parts, rest))

scaled-bounded_example :
    (1 ≤ scaled rounded 3024 4032)
    × (scaled rounded 3024 4032 ≤ max_edge)
    × (scaled rounded 3024 4032 ≤ 3024)
    × (scaled rounded 4032 4032 ≡ 1600)
scaled-bounded_example =
    scaled-bounded rounded 3024 4032 rounded-IsNearest (omega arith) (omega arith)

abbrev safari : Browser
safari = record {
  bitmap = λ file. answered (3024, 4032);
  to_blob = λ width height type.
      if code_eq type (codes "image/jpeg")
      then some (record { type = type; size = 400000 })
      else some (record { type = codes "image/png"; size = 900000 });
  nearest = rounded;
  iso = λ t. "2024-05-01T10:00:00.000Z";
  now = 1714557600000;
}

abbrev storage : Server ℕ
storage = record {
  approve = λ request. answered (record { object_key = "photos/1"; upload_url = "https://r2/1" });
  stored = λ url blob. answered true;
  confirm = λ c. answered 1;
}

abbrev photo : File
photo = record { type = codes "image/heic"; size = 3000000; last_modified = 0 }

abbrev no_target : PhotoTarget
no_target = record { waypoint_id = none; itinerary_day_id = none }

abbrev size_of : Reply (ℕ × ℕ) → ℕ × ℕ
size_of (answered size) = size
size_of (failed e) = (0, 0)

safari_sized : (file : File) (w h : ℕ) → safari.bitmap file ≡ answered (w, h) → (1 ≤ w) × (1 ≤ h)
safari_sized file w h read =
    let wide : 3024 ≡ w = ap (λ size. (size_of size).0) read in
    let high : 4032 ≡ h = ap (λ size. (size_of size).1) read in
    (omega (arith, wide), omega (arith, high))

abbrev text : File
text = record { type = codes "text/plain"; size = 12; last_modified = 0 }

two_files : (handle_files storage safari (photo ∷ text ∷ []) no_target).1 ≡ 1 ∷ []
unfolding handle_files upload_photo send_image put_image prepare_image code_eq
two_files = refl

handle_files-IsAccounted_example :
    IsAccounted storage
      (photo ∷ text ∷ [])
      (handle_files storage safari (photo ∷ text ∷ []) no_target)
handle_files-IsAccounted_example =
    handle_files-IsAccounted storage safari rounded-IsNearest safari_sized (photo ∷ text ∷ [])
      no_target
