-- ===== src/Files/Git.antt =====
-- `runGit` of apps/bridge/src/files/git.ts: how the chunks of git's output are kept to a limit, and
-- what its end means. The process and the test of its messages are parameters.
use kanhrd.Base.{
  ℕ, zero, suc, ◌-◌, ◌≤◌, ◌≡◌, refl, sym, ap, ◌∙◌, inl, inr, Bool, true, false, Option, none, some,
  List, [], ◌∷◌, ◌++◌, if◌then◌else◌, ltb, ◌==◌, any, length, take, arith, Bool-cases,
  length-append, append_assoc, append-nil, subst, take-all,
}

-- What the listener of `data` holds.
pub record Collected : Type 0 where
  pub chunks : List ℕ
  pub truncated : Bool

unfoldable pub collect_chunk : ℕ → List ℕ → Collected → Collected
collect_chunk limit chunk c =
    if c.truncated
    then c
    else if ltb (limit - length c.chunks) (length chunk)
    then record { chunks = c.chunks ++ take (limit - length c.chunks) chunk; truncated = true }
    else record { chunks = c.chunks ++ chunk; truncated = false }

unfoldable pub collect : ℕ → List (List ℕ) → Collected → Collected
unfolding collect_chunk
collect limit [] c = c
collect limit (chunk ∷ chunks) c = collect limit chunks (collect_chunk limit chunk c)

-- How the process ended: it did not start (and whether for want of the binary), or it closed with a
-- code and, or not, git's message that this is no repository.
pub data Ended : Type 0 where
  not_started : Bool → Ended
  closed : Option ℕ → Bool → Ended

-- A `GitResult` with its code, or a `RepoFileError`; a code of none is -1.
pub data GitAnswer : Type 0 where
  answered : List ℕ → Bool → Option ℕ → GitAnswer
  git_unavailable : GitAnswer
  not_a_repository : GitAnswer
  git_failed : GitAnswer

abbrev is_code : Option ℕ → ℕ → Bool
is_code none n = false
is_code (some code) n = code == n

unfoldable pub close : List ℕ → Collected → Ended → GitAnswer
close ok_codes c (not_started no_binary) = if no_binary then git_unavailable else git_failed
close ok_codes c (closed code no_repository) =
    if c.truncated
    then answered c.chunks true code
    else if no_repository
    then not_a_repository
    else if any (is_code code) ok_codes
    then answered c.chunks false code
    else git_failed

unfoldable pub run_git : ℕ → List ℕ → List (List ℕ) → Ended → GitAnswer
unfolding collect close
run_git limit ok_codes chunks ended =
    close ok_codes (collect limit chunks (record { chunks = []; truncated = false })) ended

-- All bytes of the output.
abbrev pub joined : List (List ℕ) → List ℕ
joined [] = []
joined (chunk ∷ chunks) = chunk ++ joined chunks

close_answer :
    (ok_codes : List ℕ) (c : Collected) (ended : Ended) (bytes : List ℕ) (truncated : Bool)
    (code : Option ℕ)
    → close ok_codes c ended ≡ answered bytes truncated code
    → (bytes ≡ c.chunks) × (truncated ≡ c.truncated)
unfolding close
close_answer ok_codes c (not_started no_binary) bytes truncated code h = absurd (ground arith)
close_answer ok_codes c (closed out no_repository) bytes truncated code h = ground arith

take-append :
    (n : ℕ) (xs ys : List ℕ) → length xs ≤ n → take n (xs ++ ys) ≡ xs ++ take (n - length xs) ys
take-append n [] ys h = ap (λ k. take k ys) (omega arith)
take-append zero (x ∷ xs) ys h = absurd (omega arith)
take-append (suc n) (x ∷ xs) ys h =
    ap (λ l. x ∷ l) (take-append n xs ys (omega arith) ∙ ap (λ k. xs ++ take k ys) (omega arith))

take-under : (n : ℕ) (xs ys : List ℕ) → n ≤ length xs → take n (xs ++ ys) ≡ take n xs
take-under zero xs ys h = refl
take-under (suc n) [] ys h = absurd (omega arith)
take-under (suc n) (x ∷ xs) ys h = ap (λ l. x ∷ l) (take-under n xs ys (omega arith))

-- The first bytes up to the limit, and whether there are more.
abbrev pub IsLimited : ℕ → List ℕ → Collected → Type 0
IsLimited limit bytes c = (c.chunks ≡ take limit bytes) × (c.truncated ≡ ltb limit (length bytes))

collect_truncated :
    (limit : ℕ) (chunks : List (List ℕ)) (bytes : List ℕ)
    → collect limit chunks (record { chunks = bytes; truncated = true })
      ≡ record { chunks = bytes; truncated = true }
unfolding collect collect_chunk
collect_truncated limit [] bytes = refl
collect_truncated limit (chunk ∷ chunks) bytes = collect_truncated limit chunks bytes

abbrev open_with : List ℕ → Collected
open_with bytes = record { chunks = bytes; truncated = false }

collect-IsLimited :
    (limit : ℕ) (chunks : List (List ℕ)) (bytes : List ℕ)
    → length bytes ≤ limit
    → IsLimited limit (bytes ++ joined chunks) (collect limit chunks (open_with bytes))
unfolding collect collect_chunk
collect-IsLimited limit [] bytes within =
    rw (append-nil bytes) (sym (take-all limit bytes within), ground arith)
collect-IsLimited limit (chunk ∷ chunks) bytes within =
    elim (Bool-cases (ltb (limit - length bytes) (length chunk))) [
      | inl over ↦
          rw (collect, collect_chunk, over)
            (rw (collect_truncated limit chunks) (
              sym (
                  take-append limit bytes (chunk ++ joined chunks) within
                  ∙ ap (λ l. bytes ++ l)
                      (take-under (limit - length bytes) chunk (joined chunks) (ground arith))),
              ground (
                arith,
                length-append bytes (chunk ++ joined chunks),
                length-append chunk (joined chunks),
              ),
            ))
      | inr room ↦
          rw (collect, collect_chunk, room)
            (subst (λ l. IsLimited limit l (collect limit chunks (open_with (bytes ++ chunk))))
              (append_assoc bytes chunk (joined chunks))
              (collect-IsLimited limit chunks (bytes ++ chunk)
                (ground (arith, length-append bytes chunk))))
    ]

-- What `runGit` answers is the first bytes of git's output, up to the limit, with `truncated` set
-- exactly if there were more.
pub run_git-limited :
    (limit : ℕ) (ok_codes : List ℕ) (chunks : List (List ℕ)) (ended : Ended) (bytes : List ℕ)
    (truncated : Bool) (code : Option ℕ)
    → run_git limit ok_codes chunks ended ≡ answered bytes truncated code
    → (bytes ≡ take limit (joined chunks)) × (truncated ≡ ltb limit (length (joined chunks)))
unfolding run_git
run_git-limited limit ok_codes chunks ended bytes truncated code h =
    let c = collect limit chunks (open_with []) in
    let (same, more) = collect-IsLimited limit chunks [] (omega arith) in
    let (b, t) = close_answer ok_codes c ended bytes truncated code h in (b ∙ same, t ∙ more)
