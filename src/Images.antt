-- ===== src/Images.antt =====
-- Photos before and during their upload: frontend/src/lib/images.ts.
-- `nearest w m` is `Math.round(w * (1600 / m))`, whose last bit the model does not compute. Reading
-- and drawing an image, and encoding it, belong to the browser and are parameters.
use travel_planner.Base.{
  ℕ, ◌≡◌, ◌≤◌, ◌<◌, ◌*◌, ◌+◌, Bool, true, false, not, ◌&&◌, Option, none, some, List, [], ◌∷◌, ◌++◌,
  suc, String, if◌then◌else◌, leb, ltb, Code, codes, code_eq, starts_with, ◌otherwise◌,
}
use travel_planner.Reply.{Reply, answered, failed}
pub mod Bounds
pub mod Upload
pub mod Files

pub record File : Type 0 where
  pub type : Code
  pub size : ℕ
  pub last_modified : ℕ

pub record Blob : Type 0 where
  pub type : Code
  pub size : ℕ

pub record PreparedImage : Type 0 where
  pub blob : Blob
  pub width : ℕ
  pub height : ℕ
  pub taken_at : String

abbrev pub max_original_bytes : ℕ
max_original_bytes = 5 * 1024 * 1024

abbrev pub max_edge : ℕ
max_edge = 1600

abbrev pub larger : ℕ → ℕ → ℕ
larger m n = if leb m n then n else m

-- A side of the drawn image: `Math.max(1, Math.round(side * Math.min(1, 1600 / m)))` for the longer
-- side m. The scale is 1 up to m = 1600.
unfoldable pub scaled : (nearest : ℕ → ℕ → ℕ) (side longer : ℕ) → ℕ
scaled nearest side longer = larger 1 (if leb longer max_edge then side else nearest side longer)

-- What the browser makes of a file: its size in pixels, or an image that it cannot read, and the
-- canvas as a blob of a type. The instant is the file's own or the present one.
pub record Browser : Type 0 where
  pub bitmap : File → Reply (ℕ × ℕ)
  pub to_blob : (width height : ℕ) (type : Code) → Option Blob
  pub nearest : ℕ → ℕ → ℕ
  pub iso : ℕ → String
  pub now : ℕ

module _ (browser : Browser) where
  -- WebP, and JPEG where the browser has no WebP.
  abbrev pub encoded : (width height : ℕ) → Option Blob
  encoded width height =
      let jpeg = browser.to_blob width height (codes "image/jpeg") in
      elim (browser.to_blob width height (codes "image/webp")) [
        | none ↦ jpeg
        | some blob ↦ if code_eq blob.type (codes "image/webp") then some blob else jpeg
      ]

  abbrev pub prepared : File → (width height : ℕ) → Reply PreparedImage
  prepared file width height = elim (encoded width height) [
    | none ↦ failed (some "Couldn't process that image.")
    | some blob ↦ answered (record {
      blob = blob;
      width = width;
      height = height;
      taken_at = browser.iso (if leb 1 file.last_modified then file.last_modified else browser.now);
    })
  ]

  unfoldable pub prepare_image : File → Reply PreparedImage
  prepare_image file =
      if not (starts_with file.type (codes "image/"))
      then failed (some "That file isn't an image.")
      else if ltb max_original_bytes file.size
      then failed (some "Photos can be at most 5 MB.")
      else elim (browser.bitmap file) [
        | failed e ↦ failed e
        | answered (w, h) ↦
            prepared file (scaled browser.nearest w (larger w h))
              (scaled browser.nearest h (larger w h))
      ]

pub record PhotoTarget : Type 0 where
  pub waypoint_id : Option String
  pub itinerary_day_id : Option String

pub record UploadUrl : Type 0 where
  pub object_key : String
  pub upload_url : String

pub record UrlRequest : Type 0 where
  pub content_type : Code
  pub bytes : ℕ
  pub width : ℕ
  pub height : ℕ
  pub links : PhotoTarget

pub record Confirmation : Type 0 where
  pub object_key : String
  pub width : ℕ
  pub height : ℕ
  pub bytes : ℕ
  pub taken_at : String
  pub links : PhotoTarget

-- What an upload sends, in its order.
pub data Sent : Type 0 where
  asks_url : UrlRequest → Sent
  puts : (url : String) → Blob → Sent
  confirms : Confirmation → Sent

-- The answers of the API and of the storage; `stored` gives `put.ok`.
pub record Server (Photo : Type 0) : Type 0 where
  pub approve : UrlRequest → Reply UploadUrl
  pub stored : (url : String) → Blob → Reply Bool
  pub confirm : Confirmation → Reply Photo

abbrev pub url_request : PreparedImage → PhotoTarget → UrlRequest
url_request img target = record {
  content_type = img.blob.type;
  bytes = img.blob.size;
  width = img.width;
  height = img.height;
  links = target;
}

abbrev pub confirmation : PreparedImage → PhotoTarget → UploadUrl → Confirmation
confirmation img target approved = record {
  object_key = approved.object_key;
  width = img.width;
  height = img.height;
  bytes = img.blob.size;
  taken_at = img.taken_at;
  links = target;
}

module _ {Photo : Type 0} (server : Server Photo) where
  -- The upload behind an approval.
  unfoldable pub put_image : PreparedImage → PhotoTarget → UploadUrl → List Sent × Reply Photo
  put_image img target approved =
      let put = puts approved.upload_url img.blob in
      elim (server.stored approved.upload_url img.blob) [
        | failed e ↦ (put ∷ [], failed e)
        | answered false ↦
            (put ∷ [], failed (some "The upload to storage failed. Please try again."))
        | answered true ↦ (
          put ∷ confirms (confirmation img target approved) ∷ [],
          server.confirm (confirmation img target approved),
        )
      ]

  unfoldable pub send_image : PreparedImage → PhotoTarget → List Sent × Reply Photo
  send_image img target =
      let asked = asks_url (url_request img target) in
      elim (server.approve (url_request img target)) [
        | failed e ↦ (asked ∷ [], failed e)
        | answered approved ↦
            (asked ∷ (put_image img target approved).0, (put_image img target approved).1)
      ]

  unfoldable pub upload_photo : (browser : Browser) → File → PhotoTarget → List Sent × Reply Photo
  upload_photo browser file target = elim (prepare_image browser file) [
    | failed e ↦ ([], failed e)
    | answered img ↦ send_image img target
  ]

  -- `handleFiles` of frontend/src/components/memories/PhotoUploadButton.tsx: what is sent, the photos
  -- that are handed on, and the number of errors shown. One file after the other is uploaded.
  unfoldable pub handle_files :
      (browser : Browser) → List File → PhotoTarget → List Sent × List Photo × ℕ
  handle_files browser [] target = ([], [], 0)
  handle_files browser (file ∷ files) target =
      let (sent, photos, errors) = handle_files browser files target in
      let (now, reply) = upload_photo browser file target in
      elim reply [
        | answered photo ↦ (now ++ sent, photo ∷ photos, errors)
        | failed e ↦ (now ++ sent, photos, suc errors)
      ]
