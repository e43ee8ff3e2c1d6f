-- ===== src/Files/Reader/Laws.antt =====
-- What `read` gives away: nothing over the limit and nothing outside the checkout.
use kanhrd.Base.{
  ℕ, ◌≤◌, ◌≡◌, refl, inl, inr, String, true, false, Option, none, some, List, arith, ltb, length,
  ap, ◌∙◌, sym, suc, min, Option-cases, Bool-cases,
}
use kanhrd.Files.Confine.{
  ConfinedPath, segments_of, absolute_of, Confined, confined, outside, unfinished, confine_path,
}
use kanhrd.Files.Confine.Laws.{is_readable, confine_path_safe}
use kanhrd.Files.Reader.{
  Disk, Node, file, directory, other, text, binary, ReadOutcome, content, failed, with_bytes,
  with_node, read, is_binary, read_confined,
}

-- A text that was read through a path: the path was accepted, the file that it resolves to was looked
-- at and read, and the text is what its bytes decode to.
pub record IsTextAt (disk : Disk) (fuel limit : ℕ) (root path rel : String) (size mtime : ℕ)
    (t : String) : Type 0 where
  pub accepted : ConfinedPath
  pub confined_to : confine_path disk.paths fuel root path ≡ confined accepted
  pub named : accepted.rel ≡ rel
  pub joined : accepted.abs ≡ absolute_of disk.paths root (segments_of disk.paths path)
  pub real : String
  pub resolved : disk.paths.real_path accepted.abs ≡ some real
  pub inside : is_readable disk.paths root real ≡ true
  pub stat_size : ℕ
  pub stat : disk.stat real ≡ some (file stat_size mtime)
  pub bytes : List ℕ
  pub read_from : disk.read_bytes real (suc (min stat_size limit)) ≡ some bytes
  pub sized : length bytes ≡ size
  pub bounded : size ≤ limit
  pub clean : is_binary bytes ≡ false
  pub decoded_to : disk.decode bytes ≡ some t

-- The fields of a text that was answered; of another answer they do not matter.
unfoldable size_in : ReadOutcome → ℕ
size_in (content (text r n m t)) = n
size_in (content (binary r n m)) = 0
size_in (failed e) = 0

unfoldable mtime_in : ReadOutcome → ℕ
mtime_in (content (text r n m t)) = m
mtime_in (content (binary r n m)) = 0
mtime_in (failed e) = 0

unfoldable rel_in : ReadOutcome → String
rel_in (content (text r n m t)) = r
rel_in (content (binary r n m)) = ""
rel_in (failed e) = ""

unfoldable text_in : ReadOutcome → String
text_in (content (text r n m t)) = t
text_in (content (binary r n m)) = ""
text_in (failed e) = ""

leb_of : (a b : ℕ) → ltb a b ≡ false → b ≤ a
leb_of a b h = ground arith

-- What the bytes of a file must have been for a text to be answered.
record IsDecoded (disk : Disk) (limit : ℕ) (rel r : String) (mtime n m : ℕ) (t : String)
    (found : Option (List ℕ)) : Type 0 where
  bytes : List ℕ
  read_from : found ≡ some bytes
  named : rel ≡ r
  at_time : mtime ≡ m
  sized : length bytes ≡ n
  bounded : n ≤ limit
  clean : is_binary bytes ≡ false
  decoded_to : disk.decode bytes ≡ some t

with_bytes-IsDecoded :
    (disk : Disk) (limit : ℕ) (rel r : String) (size mtime n m : ℕ) (t : String)
    (found : Option (List ℕ))
    → with_bytes disk limit rel size mtime found ≡ content (text r n m t)
    → IsDecoded disk limit rel r mtime n m t found
unfolding size_in text_in rel_in mtime_in
with_bytes-IsDecoded disk limit rel r size mtime n m t none h = absurd (ground arith)
with_bytes-IsDecoded disk limit rel r size mtime n m t (some bytes) h =
    elim (Bool-cases (ltb limit (length bytes))) [
      | inl over ↦ absurd (ground (arith, rw over at h))
      | inr within ↦ elim (Bool-cases (is_binary bytes)) [
        | inl nul ↦ absurd (ground (arith, rw (within, nul) at h))
        | inr clean ↦ elim (Option-cases (disk.decode bytes)) [
          | inl e ↦ absurd (ground (arith, rw (within, clean, e) at h))
          | inr (u, e) ↦
              let same : content (text rel (length bytes) mtime u) ≡ content (text r n m t) =
                rw (within, clean, e) at h in
              let size_is : length bytes ≡ n = ap size_in same in
              record {
                bytes = bytes;
                read_from = refl;
                named = ap rel_in same;
                at_time = ap mtime_in same;
                sized = size_is;
                bounded = omega (arith, size_is, leb_of limit (length bytes) within);
                clean = clean;
                decoded_to = e ∙ ap some (ap text_in same);
              }
        ]
      ]
    ]

-- What `stat` must have found.
abbrev IsRead : Disk → ℕ → String → String → String → ℕ → ℕ → String → Option Node → Type 0
IsRead disk limit rel r real n m t node =
    (size : ℕ) × (mtime : ℕ) × (node ≡ some (file size mtime))
    × IsDecoded disk limit rel r mtime n m t (disk.read_bytes real (suc (min size limit)))

with_node-IsRead :
    (disk : Disk) (limit : ℕ) (rel r real : String) (n m : ℕ) (t : String) (node : Option Node)
    → with_node disk limit rel real node ≡ content (text r n m t)
    → IsRead disk limit rel r real n m t node
with_node-IsRead disk limit rel r real n m t none h = absurd (ground arith)
with_node-IsRead disk limit rel r real n m t (some directory) h = absurd (ground arith)
with_node-IsRead disk limit rel r real n m t (some (other size)) h = absurd (ground arith)
with_node-IsRead disk limit rel r real n m t (some (file size mtime)) h =
    elim (Bool-cases (ltb limit size)) [
      | inl e ↦ absurd (ground arith)
      | inr e ↦
          (size, mtime, refl, with_bytes-IsDecoded disk limit rel r size mtime n m t _ (rw e at h))
    ]

-- A text that `read` answers comes from the file that the path names: `confinePath` accepted the path
-- joined to the root, the file is at the real path of that, which lies inside the checkout and outside
-- git's directory, and the answer has its modification time. The text is what the bytes that were
-- read from there decode to, they are as many as the size in the answer and at most the limit,
-- whatever `stat` had said, and no NUL is in the part that is looked at.
pub read-IsTextAt :
    (disk : Disk) (fuel limit : ℕ) (root path rel : String) (size mtime : ℕ) (t : String)
    → read disk fuel limit root path ≡ content (text rel size mtime t)
    → IsTextAt disk fuel limit root path rel size mtime t
unfolding read
read-IsTextAt disk fuel limit root path rel size mtime t h =
    go (confine_path disk.paths fuel root path) refl h
  where
    go :
        (v : Confined)
        → confine_path disk.paths fuel root path ≡ v
        → read_confined disk limit v ≡ content (text rel size mtime t)
        → IsTextAt disk fuel limit root path rel size mtime t
    go outside e g = absurd (ground arith)
    go unfinished e g = absurd (ground arith)
    go (confined c) e g = elim (Option-cases c.real) [
      | inl none_ ↦ absurd (ground arith)
      | inr (real, at_) ↦
          let (dots, git, joined, anc, res) = confine_path_safe disk.paths fuel root path c e in
          let (stat_size, time, found, d) =
            with_node-IsRead disk limit c.rel rel real size mtime t _ (rw at_ at g) in
          elim res [
            | inl gone ↦ absurd (ground arith)
            | inr (at_abs, ok) ↦ record {
              accepted = c;
              confined_to = e;
              named = d.named;
              joined = joined;
              real = real;
              resolved = sym at_abs ∙ at_;
              inside = rw at_ at ok;
              stat_size = stat_size;
              stat = found ∙ ap (λ x. some (file stat_size x)) d.at_time;
              bytes = d.bytes;
              read_from = d.read_from;
              sized = d.sized;
              bounded = d.bounded;
              clean = d.clean;
              decoded_to = d.decoded_to;
            }
          ]
    ]
