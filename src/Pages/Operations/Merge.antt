-- ===== src/Pages/Operations/Merge.antt =====
-- Merging, rotating and unlocking (app/utils/pdf_pages.py).
use tools_backend.Base.{
  ℕ, zero, suc, ◌+◌, ◌≡◌, refl, sym, ◌∙◌, Bool, true, false, ◌&&◌, not, Option, none, some, List,
  [], ◌∷◌, ◌++◌, append_assoc, append-nil, arith, ◌==◌, if◌then◌else◌, length, get_elem?, is_empty,
  Result, ok, ◌>>=◌, ◌>>◌, raise_if, >>=-eq-ok, raise_if-eq-ok, Text, not-false,
}
use mathlib.Core.Option
use native.Mathlib.Numerals.{one-add}
use native.Mathlib.Nat.{add-zero, add-suc, suc-add}
use tools_backend.Base.Integers.{ℤ}
use tools_backend.Pages.Pypdf.{Pypdf}
use tools_backend.Pages.Operations.{
  add_rotated, merge_pdfs, append_all, rotate_pdf, rotates, ApplyTo, is_bad_angle, parsed_if_given,
  unlock_pdf, open_pdf,
}
use tools_backend.Pages.Operations.Written.{map_numbered, written-add_rotated}
use tools_backend.Pages.Selection.{PagesError, not_protected, incorrect_password, no_pages}

get_elem?-map_numbered {ℓ κ} :
    {A : Type ℓ} {B : Type κ} (f : ℕ → A → B) (n : ℕ) (xs : List A) (i : ℕ)
    → get_elem? (map_numbered f n xs) i ≡ Option.map (f (n + i)) (get_elem? xs i)
get_elem?-map_numbered f n [] i = refl
get_elem?-map_numbered f n (x ∷ xs) zero = rw add-zero
get_elem?-map_numbered f n (x ∷ xs) (suc i) =
    rw (add-suc, ← suc-add) (get_elem?-map_numbered f (suc n) xs i)

opens : (a b : Bool) → a ≡ true → (a && b) ≡ false → b ≡ false
opens a b h h' = ground arith

module _ (lib : Pypdf) where
  open lib use {
    FilePath, Reader, Writer, Page, read, is_encrypted, decrypt, pages, rotate, new_writer, append,
    written, written-new, written-append,
  }

  -- The documents opened one after the other: all of them, or the first error.
  abbrev pub open_all : List FilePath → Result PagesError (List Reader)
  open_all [] = ok []
  open_all (source ∷ sources) = do
    reader ← open_pdf lib source none
    readers ← open_all sources
    ok (reader ∷ readers)

  abbrev pub pages_of_all : List Reader → List Page
  pages_of_all [] = []
  pages_of_all (r ∷ rs) = pages r ++ pages_of_all rs

  append_all-written :
      (w : Writer) (sources : List FilePath) (rs : List Reader)
      → open_all sources ≡ ok rs
      → (w' : Writer) × (append_all lib w sources ≡ ok w')
        × (written w' ≡ written w ++ pages_of_all rs)
  unfolding append_all
  append_all-written w [] rs h = (w, refl, (let e : [] ≡ rs = cc in rw (← e) (sym (append-nil _))))
  append_all-written w (source ∷ sources) rs h =
      let (r, opened, rest) = >>=-eq-ok (open_pdf lib source none) _ h in
      let (rs', all_opened, same) = >>=-eq-ok (open_all sources) _ rest in
      let (w', done, pages_same) = append_all-written (append w r) sources rs' all_opened in
      let e : r ∷ rs' ≡ rs = cc in
      (w', rw opened done, rw (← e) (pages_same ∙ rw (written-append, append_assoc)))

  -- When every source opens, merging succeeds, and the written file has the pages of all the
  -- sources, source after source.
  pub merge_pdfs-written :
      (sources : List FilePath) (rs : List Reader)
      → open_all sources ≡ ok rs
      → (w : Writer) × (merge_pdfs lib sources ≡ ok w) × (written w ≡ pages_of_all rs)
  unfolding merge_pdfs
  merge_pdfs-written sources rs h =
      let (w, done, same) = append_all-written new_writer sources rs h in
      (w, done, same ∙ rw written-new)

  -- Rotating keeps every page in its place, and turns exactly the pages whose number is selected
  -- and has the wanted parity.
  pub rotate_pdf-written :
      (source : FilePath) (angle : ℤ) (spec : Option Text) (apply_to : ApplyTo) (r : Reader)
      (selected : Option (List ℤ)) (w : Writer)
      → open_pdf lib source none ≡ ok r
      → parsed_if_given spec (length (pages r)) ≡ ok selected
      → rotate_pdf lib source angle spec apply_to ≡ ok w
      → (i : ℕ)
      → get_elem? (written w) i
        ≡ Option.map
            (λ p. if rotates selected apply_to (suc i) then rotate angle p else p)
            (get_elem? (pages r) i)
  unfolding rotate_pdf
  rotate_pdf-written source angle spec apply_to r selected w opened parsed h i =
      let (good, rest) = raise_if-eq-ok (is_bad_angle angle) _ _ h in
      let rest' : ◌≡◌ {A = Result PagesError Writer}
          (ok (add_rotated lib (rotates selected apply_to) angle 1 new_writer (pages r))) (ok w) =
        rw (opened, parsed) at rest in
      let e : add_rotated lib (rotates selected apply_to) angle 1 new_writer (pages r) ≡ w = cc in
      rw
        (
          ← e,
          written-add_rotated lib (rotates selected apply_to) angle 1 new_writer (pages r),
          written-new,
        )
        (get_elem?-map_numbered (λ k p. if rotates selected apply_to k then rotate angle p else p) 1
            (pages r) i
          ∙ rw one-add)

  -- An unlocking that succeeds was given a protected file and a password that opens it, and writes
  -- all its pages.
  pub unlock_pdf-written :
      (source : FilePath) (password : Text) (r : Reader) (w : Writer)
      → read source ≡ some r
      → unlock_pdf lib source password ≡ ok w
      → (is_encrypted r ≡ true) × ((decrypt r password == 0) ≡ false) × (written w ≡ pages r)
  unfolding unlock_pdf open_pdf
  unlock_pdf-written source password r w found h =
      let h' : (open_pdf lib source (some password) >>= λ reader.
      raise_if (not (is_encrypted reader)) not_protected >> ok (append new_writer reader))
          ≡ ok w =
        h in
      let (r', opened, rest) = >>=-eq-ok (open_pdf lib source (some password)) _ h' in
      let opened' : (raise_if (is_encrypted r && (decrypt r password == 0)) incorrect_password
            >> (raise_if (is_empty (pages r)) no_pages >> ok r))
          ≡ ok r' =
        rw found at opened in
      let (right, opened'') =
        raise_if-eq-ok (is_encrypted r && (decrypt r password == 0)) _ _ opened' in
      let (_, same) = raise_if-eq-ok (is_empty (pages r)) _ _ opened'' in
      let e : r ≡ r' = cc in
      let (locked, done) = raise_if-eq-ok (not (is_encrypted r')) _ _ rest in
      let locked' : is_encrypted r ≡ true = rw e (not-false (is_encrypted r') locked) in
      let e' : append new_writer r ≡ w = cc in
      (
        locked',
        opens (is_encrypted r) (decrypt r password == 0) locked' right,
        rw (← e') (rw (written-append, written-new) refl),
      )
