-- ===== src/Images/Upload.antt =====
-- What an upload confirms.
use travel_planner.Base.{
  ◌⊎◌, String, ℕ, ◌≡◌, ◌≤◌, refl, Bool, true, false, Option, List, [], ◌∷◌, ltb, codes, starts_with,
  All, arith, Bool-cases, Option-cases, inl, inr,
}
use travel_planner.Reply.{Reply, answered, failed}
use travel_planner.Images.{
  File, PreparedImage, Browser, scaled, larger, max_edge, max_original_bytes, encoded, prepared,
  prepare_image, PhotoTarget, UploadUrl, Confirmation, Sent, confirms, Server, url_request,
  put_image, send_image, upload_photo,
}
use travel_planner.Images.Bounds.{IsNearest, side-bounded}

unfoldable pub confirmed : List Sent → List Confirmation
confirmed [] = []
confirmed (confirms c ∷ sent) = let rest = confirmed sent in c ∷ rest
confirmed (_ ∷ sent) = confirmed sent

-- A size that the server may be told of.
abbrev pub IsSide : ℕ → Type 0
IsSide side = (1 ≤ side) × (side ≤ max_edge)

larger-bounds : (w h : ℕ) → (w ≤ larger w h) × (h ≤ larger w h)
larger-bounds w h = (ground arith, ground arith)

Reply-cases :
    {A : Type 0} (r : Reply A)
    → ((e : Option String) × (r ≡ failed e)) ⊎ ((a : A) × (r ≡ answered a))
Reply-cases (failed e) = inl (e, refl)
Reply-cases (answered a) = inr (a, refl)

-- If there is an answer, it is as `P` says.
abbrev pub Gives : {A : Type 0} → (A → Type 0) → Reply A → Type 0
Gives P (answered a) = P a
Gives P (failed e) = Unit

-- What `prepareImage` answers for a file.
pub record IsPrepared (file : File) (img : PreparedImage) : Type 0 where
  pub is_image : starts_with file.type (codes "image/") ≡ true
  pub is_small : file.size ≤ max_original_bytes
  pub is_wide : IsSide img.width
  pub is_high : IsSide img.height

-- Why a confirmation may be sent: the photo passed the tests, the API approved it with the same
-- size, and the storage took the bytes under the address of the approval.
pub record IsEarned {Photo : Type 0} (server : Server Photo) (file : File) (c : Confirmation)
    : Type 0 where
  pub image : PreparedImage
  pub is_prepared : IsPrepared file image
  pub approved : UploadUrl
  pub has_key : c.object_key ≡ approved.object_key
  pub has_size : (c.width ≡ image.width) × (c.height ≡ image.height) × (c.bytes ≡ image.blob.size)
  pub is_approved :
      server.approve (record {
        content_type = image.blob.type;
        bytes = c.bytes;
        width = c.width;
        height = c.height;
        links = c.links;
      })
      ≡ answered approved
  pub is_stored : server.stored approved.upload_url image.blob ≡ answered true

module _ (browser : Browser) (near : IsNearest browser.nearest)
    (sized : (file : File) (w h : ℕ)
      → browser.bitmap file ≡ answered (w, h)
      → (1 ≤ w) × (1 ≤ h)) where
  prepared-Gives :
      (file : File) (w h : ℕ)
      → starts_with file.type (codes "image/") ≡ true
      → file.size ≤ max_original_bytes
      → IsSide w
      → IsSide h
      → Gives (IsPrepared file) (prepared browser file w h)
  prepared-Gives file w h image small wide high = elim (Option-cases (encoded browser w h)) [
    | inl absent ↦ rw (absent, prepared) tt
    | inr (blob, present) ↦
        rw (present, prepared)
          (record { is_image = image; is_small = small; is_wide = wide; is_high = high })
  ]

  scaled-IsSide : (w m : ℕ) → 1 ≤ w → w ≤ m → IsSide (scaled browser.nearest w m)
  scaled-IsSide w m some_w within =
      let (low, high, smaller) = side-bounded browser.nearest w m near some_w within in (low, high)

  prepare_image-Gives : (file : File) → Gives (IsPrepared file) (prepare_image browser file)
  unfolding prepare_image
  prepare_image-Gives file = elim (Bool-cases (starts_with file.type (codes "image/"))) [
    | inr other ↦ rw other tt
    | inl image ↦ elim (Bool-cases (ltb max_original_bytes file.size)) [
      | inl large ↦ rw (image, large) tt
      | inr small ↦ elim (Reply-cases (browser.bitmap file)) [
        | inl (e, unread) ↦ rw (image, small, unread) tt
        | inr ((w, h), read) ↦
            let (some_w, some_h) = sized file w h read in
            let (first, second) = larger-bounds w h in
            rw (image, small, read)
              (prepared-Gives file (scaled browser.nearest w (larger w h))
                (scaled browser.nearest h (larger w h)) image (ground (arith, small))
                (scaled-IsSide w (larger w h) some_w first)
                (scaled-IsSide h (larger w h) some_h second))
      ]
    ]
  ]

  module _ {Photo : Type 0} (server : Server Photo) where
    stored-IsEarned :
        (file : File) (target : PhotoTarget) (img : PreparedImage) (approved : UploadUrl)
        → IsPrepared file img
        → server.approve (url_request img target) ≡ answered approved
        → (stored : Reply Bool) → server.stored approved.upload_url img.blob ≡ stored
        → All (IsEarned server file) (confirmed (put_image server img target approved).0)
    unfolding put_image confirmed
    stored-IsEarned file target img approved ready asked (failed e) put = rw (put, put_image) tt
    stored-IsEarned file target img approved ready asked (answered false) put =
        rw (put, put_image) tt
    stored-IsEarned file target img approved ready asked (answered true) put =
        rw (put, put_image)
          (
            record {
              image = img;
              is_prepared = ready;
              approved = approved;
              has_key = refl;
              has_size = (refl, refl, refl);
              is_approved = asked;
              is_stored = put;
            },
            tt,
          )

    send_image-IsEarned :
        (file : File) (target : PhotoTarget) (img : PreparedImage) (asked : Reply UploadUrl)
        → IsPrepared file img
        → server.approve (url_request img target) ≡ asked
        → All (IsEarned server file) (confirmed (send_image server img target).0)
    unfolding send_image confirmed
    send_image-IsEarned file target img (failed e) ready asked = rw (asked, send_image) tt
    send_image-IsEarned file target img (answered approved) ready asked =
        rw (asked, send_image)
          (stored-IsEarned file target img approved ready asked
            (server.stored approved.upload_url img.blob) refl)

    upload_prepared :
        (file : File) (target : PhotoTarget) (image : Reply PreparedImage)
        → prepare_image browser file ≡ image
        → Gives (IsPrepared file) image
        → All (IsEarned server file) (confirmed (upload_photo server browser file target).0)
    unfolding upload_photo confirmed prepare_image
    upload_prepared file target (failed e) image ready = rw image tt
    upload_prepared file target (answered img) image ready =
        rw image
          (send_image-IsEarned file target img (server.approve (url_request img target)) ready refl)

    -- A photo is confirmed only if it was earned.
    pub upload_photo-IsEarned :
        (file : File) (target : PhotoTarget)
        → All (IsEarned server file) (confirmed (upload_photo server browser file target).0)
    upload_photo-IsEarned file target =
        upload_prepared file target (prepare_image browser file) refl (prepare_image-Gives file)
