-- ===== src/Files/Disk/Written.antt =====
-- What is on the disk behind the operations of the storage tree (app/services/storage.py).
use tools_backend.Base.{
  ◌≡◌, refl, sym, ◌∙◌, ◌≢◌, inl, inr, false, none, some, [], ◌∷◌, Bool-cases, Text, text_eq,
  text_eq_refl, text_eq→eq, ℕ, Result, length, arith, ok, ◌≤◌, ap, err, raise_if-eq-ok, ltb, ◌+◌,
  ◌++◌, length-append,
}
use tools_backend.Exceptions.{AppException}
use tools_backend.Files.Disk.{
  Bytes, Disk, lookup, unlink, put, FileSystem, Reads, stream, with_first, write_stream, closed,
}

pub text_eq_differ : (p q : Text) → p ≢ q → text_eq p q ≡ false
text_eq_differ p q ne = elim (Bool-cases (text_eq p q)) [
  | inl same ↦ absurd (ne (text_eq→eq p q same))
  | inr differs ↦ differs
]

pub lookup-unlink_self : (path : Text) (disk : Disk) → lookup path (unlink path disk) ≡ none
lookup-unlink_self path [] = refl
lookup-unlink_self path ((p, content) ∷ disk) = elim (Bool-cases (text_eq p path)) [
  | inl same ↦ rw same (lookup-unlink_self path disk)
  | inr other ↦ rw (other, other) (lookup-unlink_self path disk)
]

pub lookup-unlink_ne :
    (path other : Text) (disk : Disk)
    → path ≢ other
    → lookup other (unlink path disk) ≡ lookup other disk
lookup-unlink_ne path other [] ne = refl
lookup-unlink_ne path other ((p, content) ∷ disk) ne = elim (Bool-cases (text_eq p path)) [
  | inl same ↦
      let e : p ≡ path = text_eq→eq p path same in
      rw (same, text_eq_differ p other (λ q. ne (sym e ∙ q))) (lookup-unlink_ne path other disk ne)
  | inr differs ↦ rw (differs, lookup-unlink_ne path other disk ne)
]

pub lookup-put_self :
    (path : Text) (content : Bytes) (disk : Disk)
    → lookup path (put path content disk) ≡ some content
lookup-put_self path content disk = rw (text_eq_refl path)

pub lookup-put_ne :
    (path other : Text) (content : Bytes) (disk : Disk)
    → path ≢ other
    → lookup other (put path content disk) ≡ lookup other disk
lookup-put_ne path other content disk ne =
    rw (text_eq_differ path other ne) (lookup-unlink_ne path other disk ne)

-- A successful loop has counted the content, which is within the limit.
stream-ok :
    (max_bytes written : ℕ) (content : Bytes) (reads : Reads) (n : ℕ) (all : Bytes)
    → length content ≡ written
    → written ≤ max_bytes
    → stream max_bytes written content reads ≡ ok (n, all)
    → (length all ≡ n) × (n ≤ max_bytes)
unfolding stream
stream-ok max_bytes written content [] n all counted bounded h = (
  (let a : content ≡ all = cc in let b : written ≡ n = cc in rw (← a, ← b) counted),
  (let b : written ≡ n = cc in rw (← b) bounded),
)
stream-ok max_bytes written content (none ∷ reads) n all counted bounded h = cc
stream-ok max_bytes written content (some [] ∷ reads) n all counted bounded h = (
  (let a : content ≡ all = cc in let b : written ≡ n = cc in rw (← a, ← b) counted),
  (let b : written ≡ n = cc in rw (← b) bounded),
)
stream-ok max_bytes written content (some (b ∷ chunk) ∷ reads) n all counted bounded h =
    let (fits, rest) = raise_if-eq-ok (ltb max_bytes (written + length (b ∷ chunk))) _ _ h in
    stream-ok max_bytes (written + length (b ∷ chunk)) (content ++ b ∷ chunk) reads n all
      (omega (arith, length-append content (b ∷ chunk), counted)) (ground arith) rest

-- What a result of `write_stream` says of the destination.
abbrev pub IsWritten : FileSystem → Text → ℕ → Disk → Result AppException (ℕ × Text) → Type 0
IsWritten fs destination max_bytes disk (ok (n, checksum)) =
    (content : Bytes) × (lookup destination disk ≡ some content)
    × (length content ≡ n)
    × (n ≤ max_bytes)
    × (fs.digest content ≡ checksum)
IsWritten fs destination max_bytes disk (err e) = lookup destination disk ≡ none

closed-bounded :
    (fs : FileSystem) (destination : Text) (max_bytes : ℕ) (disk disk' : Disk)
    (result : Result AppException (ℕ × Text)) (streamed : Result AppException (ℕ × Bytes))
    → ((n : ℕ) → (all : Bytes) → streamed ≡ ok (n, all) → (length all ≡ n) × (n ≤ max_bytes))
    → closed fs destination disk streamed ≡ (result, disk')
    → IsWritten fs destination max_bytes disk' result
      × ((other : Text) → destination ≢ other → lookup other disk' ≡ lookup other disk)
closed-bounded fs destination max_bytes disk disk' result (ok (n, all)) bound h =
    let e : ok (n, fs.digest all) ≡ result = ap (λ p. p.0) h in
    let e' : put destination all disk ≡ disk' = ap (λ p. p.1) h in
    let (counted, small) = bound n all refl in
    rw (← e, ← e')
      (
        (all, lookup-put_self destination all disk, counted, small, refl),
        λ other ne. lookup-put_ne destination other all disk ne,
      )
closed-bounded fs destination max_bytes disk disk' result (err x) bound h =
    let e : err x ≡ result = ap (λ p. p.0) h in
    let e' : unlink destination disk ≡ disk' = ap (λ p. p.1) h in
    rw (← e, ← e')
      (lookup-unlink_self destination disk, λ other ne. lookup-unlink_ne destination other disk ne)

-- However the source chunks its bytes: a stream that is written has at most the allowed bytes, and
-- the file at the destination has exactly the counted number of bytes, and the returned digest is
-- that of its content. After an exception there is no file at the destination. Either way no other
-- file has changed.
pub write_stream-bounded :
    (fs : FileSystem) (source : Reads) (destination : Text) (max_bytes : ℕ) (first : Bytes)
    (disk disk' : Disk) (result : Result AppException (ℕ × Text))
    → write_stream fs source destination max_bytes first disk ≡ (result, disk')
    → IsWritten fs destination max_bytes disk' result
      × ((other : Text) → destination ≢ other → lookup other disk' ≡ lookup other disk)
unfolding write_stream
write_stream-bounded fs source destination max_bytes first disk disk' result h =
    closed-bounded fs destination max_bytes disk disk' result
      (stream max_bytes 0 [] (with_first first source))
      (λ n all e. stream-ok max_bytes 0 [] (with_first first source) n all refl (omega arith) e) h
