-- ===== src/Output.antt =====
-- output.go: readOutputFile. What the operating system answers for the file is an argument.
use relay_scheduler.Base.{
  ℕ, ◌+◌, ◌-◌, ◌*◌, ◌%◌, ◌≤◌, String, ◌≡◌, sym, subst, ◌∙◌, Bool, true, not, Option, none, some,
  List, arith, ltb, if◌then◌else◌, length, take, Result, ok, err, length-take, take-length,
  Bool-cases, false, ltb-false→le, refl, inl, inr, ap,
}
use Prim.Native.String.{◌++◌ as ◌⧺◌}
use relay_scheduler.Clock.{Time, second}

abbrev pub max_output_bytes : ℕ
max_output_bytes = 64 * 1024

-- ELOOP, ENOENT, or another error, with its text.
pub data OpenError : Type 0 where
  is_symlink not_exist : OpenError
  open_failed : String → OpenError

pub record OpenedFile : Type 0 where
  pub stat_error : Option String
  pub regular : Bool
  pub mod_time : Time
  pub size : ℕ
  pub content : Result String (List ℕ)

abbrev unreadable : String → String
unreadable e = "output file unreadable: " ⧺ e

abbrev pub truncate_second : Time → Time
truncate_second t = t - t % second

abbrev open_error : OpenError → String
open_error is_symlink = "output file is a symlink"
open_error not_exist = "output file not produced"
open_error (open_failed e) = unreadable e

-- io.ReadAll of the LimitReader, one byte past the cap, and the check of what it read.
unfoldable pub read_capped : Result String (List ℕ) → Result String (List ℕ)
read_capped (err e) = err (unreadable e)
read_capped (ok content) =
    let got = take (max_output_bytes + 1) content in
    if ltb max_output_bytes (length got) then err "output file is over the 64 KB cap" else ok got

unfoldable pub read_opened : OpenedFile → Time → Result String (List ℕ)
unfolding read_capped
read_opened f not_before = elim f.stat_error [
  | some e ↦ err (unreadable e)
  | none ↦
      if not f.regular
      then err "output file is not a regular file"
      else if ltb f.mod_time (truncate_second not_before)
      then err "output file not produced"
      else if ltb max_output_bytes f.size
      then err "output file is over the 64 KB cap"
      else read_capped f.content
]

unfoldable pub read_output_file : Result OpenError OpenedFile → Time → Result String (List ℕ)
unfolding read_opened
read_output_file (err e) not_before = err (open_error e)
read_output_file (ok f) not_before = read_opened f not_before

-- The facts on a file that may become a run's output.
pub record IsOutput (f : OpenedFile) (not_before : Time) (out : List ℕ) : Type 0 where
  pub stat : f.stat_error ≡ none
  pub regular : f.regular ≡ true
  pub recent : truncate_second not_before ≤ f.mod_time
  pub content : f.content ≡ ok out
  pub bounded : length out ≤ max_output_bytes

read_capped_lem :
    (n : ℕ) (content out : List ℕ)
    → length (take (n + 1) content) ≤ n
    → take (n + 1) content ≡ out
    → (content ≡ out) × (length out ≤ n)
read_capped_lem n content out h e =
    let short : length content ≤ n = omega (arith, length-take (n + 1) content) in
    (sym (take-length (n + 1) content (omega arith)) ∙ e, subst (λ l. length l ≤ n) e h)

checks_passed :
    (a b c : Bool) (x y z : String) (r : Result String (List ℕ)) (out : List ℕ)
    → (if a then err x else if b then err y else if c then err z else r) ≡ ok out
    → (a ≡ false) × (b ≡ false) × (r ≡ ok out)
checks_passed true b c x y z r out e = cc
checks_passed false true c x y z r out e = cc
checks_passed false false true x y z r out e = cc
checks_passed false false false x y z r out e = (refl, refl, e)

read_capped_whole :
    (content : Result String (List ℕ)) (out : List ℕ)
    → read_capped content ≡ ok out
    → (content ≡ ok out) × (length out ≤ max_output_bytes)
unfolding read_capped
read_capped_whole (err x) out e = cc
read_capped_whole (ok content) out e =
    elim (Bool-cases (ltb max_output_bytes (length (take (max_output_bytes + 1) content)))) [
      | inl over ↦ let k = rw (over, read_capped) at e in cc
      | inr under ↦
          let k = rw (under, read_capped) at e in
          let (whole, bounded) =
            read_capped_lem max_output_bytes content out (ltb-false→le _ _ under) cc in
          (ap ok whole, bounded)
    ]

opened :
    (f : OpenedFile) (not_before : Time) (out : List ℕ) (stat : Option String)
    → f.stat_error ≡ stat
    → read_opened f not_before ≡ ok out
    → IsOutput f not_before out
unfolding read_opened
opened f not_before out (some x) p e = let k = rw (p, read_opened) at e in cc
opened f not_before out none p e =
    let (regular, recent, capped) = checks_passed _ _ _ _ _ _ _ out (rw (p, read_opened) at e) in
    let (content, bounded) = read_capped_whole f.content out capped in
    record {
      stat = p;
      regular = ground arith;
      recent = ltb-false→le _ _ recent;
      content = content;
      bounded = bounded;
    }

-- What readOutputFile answers is the whole content of a regular file of at most 64 KB that was
-- written in the second of the run's start or later.
pub read_output_file-IsOutput :
    (f : OpenedFile) (not_before : Time) (out : List ℕ)
    → read_output_file (ok f) not_before ≡ ok out
    → IsOutput f not_before out
unfolding read_output_file
read_output_file-IsOutput f not_before out e = opened f not_before out f.stat_error refl e
