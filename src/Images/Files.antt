-- ===== src/Images/Files.antt =====
-- Several photos at once: handleFiles of frontend/src/components/memories/PhotoUploadButton.tsx.
use travel_planner.Base.{ℕ, suc, ◌+◌, ◌≡◌, ◌≤◌, refl, ap, List, [], ◌∷◌, ◌++◌, length, All, arith}
use travel_planner.Reply.{Reply, answered, failed}
use travel_planner.Images.{
  File, Browser, PhotoTarget, Confirmation, Sent, asks_url, puts, confirms, Server, upload_photo,
  handle_files,
}
use travel_planner.Images.Bounds.{IsNearest}
use travel_planner.Images.Upload.{confirmed, IsEarned, upload_photo-IsEarned}

confirmed-append : (xs ys : List Sent) → confirmed (xs ++ ys) ≡ confirmed xs ++ confirmed ys
unfolding confirmed
confirmed-append [] ys = refl
confirmed-append (confirms c ∷ xs) ys = ap (λ rest. c ∷ rest) (confirmed-append xs ys)
confirmed-append (asks_url r ∷ xs) ys = confirmed-append xs ys
confirmed-append (puts url b ∷ xs) ys = confirmed-append xs ys

module _ {Photo : Type 0} (server : Server Photo) where
  -- One of the files earned the confirmation.
  pub record IsOwned (files : List File) (c : Confirmation) : Type 0 where
    pub before : List File
    pub file : File
    pub after : List File
    pub is_chosen : files ≡ before ++ file ∷ after
    pub is_earned : IsEarned server file c

  more-IsOwned :
      (first : File) (files : List File) (cs : List Confirmation)
      → All (IsOwned files) cs
      → All (IsOwned (first ∷ files)) cs
  more-IsOwned first files [] h = tt
  more-IsOwned first files (c ∷ cs) (here, h) = (
    record {
      before = first ∷ here.before;
      file = here.file;
      after = here.after;
      is_chosen = ap (λ rest. first ∷ rest) here.is_chosen;
      is_earned = here.is_earned;
    },
    more-IsOwned first files cs h,
  )

  IsOwned-append :
      (file : File) (files : List File) (xs ys : List Confirmation)
      → All (IsEarned server file) xs
      → All (IsOwned files) ys
      → All (IsOwned (file ∷ files)) (xs ++ ys)
  IsOwned-append file files [] ys hx hy = more-IsOwned file files ys hy
  IsOwned-append file files (x ∷ xs) ys (here, hx) hy = (
    record { before = []; file = file; after = files; is_chosen = refl; is_earned = here },
    IsOwned-append file files xs ys hx hy,
  )

  -- Every confirmation was earned by a file, and every file has its photo or its error.
  pub record IsAccounted (files : List File) (out : List Sent × List Photo × ℕ) : Type 0 where
    pub are_earned : All (IsOwned files) (confirmed out.0)
    pub are_counted : length out.1 + out.2 ≡ length files

  earned-append :
      (file : File) (files : List File) (now sent : List Sent)
      → All (IsEarned server file) (confirmed now)
      → All (IsOwned files) (confirmed sent)
      → All (IsOwned (file ∷ files)) (confirmed (now ++ sent))
  earned-append file files now sent earned h =
      rw (confirmed-append now sent)
        (IsOwned-append file files (confirmed now) (confirmed sent) earned h)

  uploaded-IsAccounted :
      (file : File) (files : List File) (now : List Sent) (reply : Reply Photo)
      → (out : List Sent × List Photo × ℕ) → All (IsEarned server file) (confirmed now)
      → IsAccounted files out
      → IsAccounted (file ∷ files) (elim reply [
        | answered photo ↦ (now ++ out.0, photo ∷ out.1, out.2)
        | failed e ↦ (now ++ out.0, out.1, suc out.2)
      ])
  uploaded-IsAccounted file files now (answered photo) out earned h = record {
    are_earned = earned-append file files now out.0 earned h.are_earned;
    are_counted = let count = h.are_counted in omega (arith, count);
  }
  uploaded-IsAccounted file files now (failed e) out earned h = record {
    are_earned = earned-append file files now out.0 earned h.are_earned;
    are_counted = let count = h.are_counted in omega (arith, count);
  }

-- With a browser that rounds to a nearest natural number and reads no empty image: however many
-- files are chosen, every confirmation that is sent was earned by one of them, as `IsEarned` says,
-- and each of them ends as a photo that is handed on or as an error that is shown.
pub handle_files-IsAccounted :
    {Photo : Type 0} (server : Server Photo) (browser : Browser)
    → IsNearest browser.nearest
    → ((file : File) (w h : ℕ) → browser.bitmap file ≡ answered (w, h) → (1 ≤ w) × (1 ≤ h))
    → (files : List File) (target : PhotoTarget)
    → IsAccounted server files (handle_files server browser files target)
unfolding handle_files confirmed
handle_files-IsAccounted server browser near sized [] target = record {
  are_earned = tt;
  are_counted = refl;
}
handle_files-IsAccounted server browser near sized (file ∷ files) target =
    uploaded-IsAccounted server file files (upload_photo server browser file target).0
      (upload_photo server browser file target).1 (handle_files server browser files target)
      (upload_photo-IsEarned browser near sized server file target)
      (handle_files-IsAccounted server browser near sized files target)
