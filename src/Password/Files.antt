-- ===== src/Password/Files.antt =====
-- What is written is loaded, and what is loaded can be written.
use caspaste.Prelude.{
  ℕ, ◌+◌, ◌≡◌, refl, sym, ap, ◌∙◌, true, false, if◌then◌else◌, Option, none, some, List, [], ◌∷◌,
  ◌++◌, append_assoc, append-nil, Text, text_eq, split_on, lacks, split_on-lacks, split_on-append,
  split_on-All, split_on-All-lacks, All, arith,
}
use caspaste.Password.Entries.{
  Entries, Result, ok, err, lookup, is_some, add_line, load_lines, load_file, content, overriding,
}

-- A text without the bytes that the file is divided by.
abbrev pub IsPlain : Text → Type 0
IsPlain w = (lacks b':' w ≡ true) × (lacks b'\n' w ≡ true)

abbrev pub Distinct : Entries → Type 0
Distinct [] = Unit {0}
Distinct ((u, h) ∷ d) = All (λ e. text_eq u e.0 ≡ false) d × Distinct d

pub record IsWritable (d : Entries) : Type 0 where
  pub plain : All (λ e. IsPlain e.0 × IsPlain e.1) d
  pub distinct : Distinct d

pub lacks-append :
    (s : ℕ) (a b : Text) → lacks s a ≡ true → lacks s b ≡ true → lacks s (a ++ b) ≡ true
lacks-append s [] b h k = k
lacks-append s (c ∷ a) b h k = ground (arith, lacks-append s a b)

lookup-append-none :
    (k u h : Text) (d : Entries)
    → lookup k d ≡ none
    → text_eq u k ≡ false
    → lookup k (d ++ (u, h) ∷ []) ≡ none
unfolding lookup
lookup-append-none k u h [] n f = rw f refl
lookup-append-none k u h ((v, g) ∷ d) n f = ground (arith, lookup-append-none k u h d)

abbrev line_of : Text → Text → Text
line_of user hash = user ++ b':' ∷ hash

parts_of :
    (user hash : Text)
    → IsPlain user
    → IsPlain hash
    → split_on b':' (line_of user hash) ≡ user ∷ hash ∷ []
parts_of user hash p q =
    split_on-append b':' user hash p.0 ∙ ap (◌∷◌ user) (split_on-lacks b':' hash q.0)

lines_of :
    (user hash : Text) (d : Entries)
    → IsPlain user
    → IsPlain hash
    → split_on b'\n' (content ((user, hash) ∷ d)) ≡ line_of user hash ∷ split_on b'\n' (content d)
unfolding content
lines_of user hash d p q =
    ap (split_on b'\n') (sym (append_assoc user (b':' ∷ hash) (b'\n' ∷ content d)))
    ∙ split_on-append b'\n' (line_of user hash) (content d)
        (lacks-append b'\n' user (b':' ∷ hash) p.1 q.1)

abbrev after_line : ℕ → List Text → Result Entries → Result Entries
after_line i ls r = elim r [ ok d ↦ load_lines (i + 1) ls d | err e ↦ err e ]

load_lines-line :
    (i : ℕ) (user hash : Text) (ls : List Text) (d : Entries)
    → load_lines i (line_of user hash ∷ ls) d
      ≡ after_line i ls (add_line i (split_on b':' (line_of user hash)) d)
unfolding load_lines
load_lines-line i [] hash ls d = refl
load_lines-line i (c ∷ user) hash ls d = refl

add_line-fresh :
    (i : ℕ) (user hash : Text) (d : Entries)
    → lookup user d ≡ none
    → add_line i (user ∷ hash ∷ []) d ≡ ok (d ++ (user, hash) ∷ [])
unfolding add_line
add_line-fresh i user hash d n = rw n refl

Fresh : Entries → Entries → Type 0
Fresh acc d = All (λ e. lookup e.0 acc ≡ none) d

Fresh-step :
    (acc d : Entries) (user hash : Text)
    → Fresh acc d
    → All (λ e. text_eq user e.0 ≡ false) d
    → Fresh (acc ++ (user, hash) ∷ []) d
unfolding Fresh
Fresh-step acc [] user hash f o = tt
Fresh-step acc ((u, h) ∷ d) user hash f o =
    (lookup-append-none u user hash acc f.0 o.0, Fresh-step acc d user hash f.1 o.1)

load_lines-nil : (i : ℕ) (acc : Entries) → load_lines i (split_on b'\n' (content [])) acc ≡ ok acc
unfolding load_lines split_on content
load_lines-nil i acc = refl

load_lines-content :
    (i : ℕ) (acc d : Entries)
    → All (λ e. IsPlain e.0 × IsPlain e.1) d
    → Distinct d
    → Fresh acc d
    → load_lines i (split_on b'\n' (content d)) acc ≡ ok (acc ++ d)
unfolding Fresh
load_lines-content i acc [] p o f = load_lines-nil i acc ∙ ap ok (sym (append-nil acc))
load_lines-content i acc ((user, hash) ∷ d) p o f =
    ap (λ ls. load_lines i ls acc) (lines_of user hash d p.0.0 p.0.1)
    ∙ load_lines-line i user hash (split_on b'\n' (content d)) acc
    ∙ ap (λ ps. after_line i (split_on b'\n' (content d)) (add_line i ps acc))
        (parts_of user hash p.0.0 p.0.1)
    ∙ ap (after_line i (split_on b'\n' (content d))) (add_line-fresh i user hash acc f.0)
    ∙ load_lines-content (i + 1) (acc ++ (user, hash) ∷ []) d p.1 o.1
        (Fresh-step acc d user hash f.1 o.0)
    ∙ ap ok (append_assoc acc ((user, hash) ∷ []) d)

all-Fresh : (d : Entries) → Fresh [] d
unfolding Fresh lookup
all-Fresh [] = tt
all-Fresh (e ∷ d) = (refl, all-Fresh d)

-- A file that is written, in whatever order the map is ranged over, is loaded again with the same
-- users and hashes, if these hold no colon and no line feed and the users are distinct.
pub load_file-content : (d : Entries) → IsWritable d → load_file (some (content d)) ≡ ok d
unfolding load_file
load_file-content d w = load_lines-content 0 [] d w.plain w.distinct (all-Fresh d)

others :
    (acc : Entries) (user hash : Text)
    → lookup user acc ≡ none
    → Distinct acc
    → Distinct (acc ++ (user, hash) ∷ [])
unfolding lookup
others [] user hash n d = (tt, tt)
others ((u, h) ∷ acc) user hash n d = (more acc d.0, others acc user hash (ground arith) d.1)
  where
    more :
        (acc : Entries)
        → All (λ e. text_eq u e.0 ≡ false) acc
        → All (λ e. text_eq u e.0 ≡ false) (acc ++ (user, hash) ∷ [])
    more [] a = (ground arith, tt)
    more (e ∷ acc) a = (a.0, more acc a.1)

IsPlain-append :
    (acc : Entries) (user hash : Text)
    → All (λ e. IsPlain e.0 × IsPlain e.1) acc
    → IsPlain user
    → IsPlain hash
    → All (λ e. IsPlain e.0 × IsPlain e.1) (acc ++ (user, hash) ∷ [])
IsPlain-append [] user hash a p q = ((p, q), tt)
IsPlain-append (e ∷ acc) user hash a p q = (a.0, IsPlain-append acc user hash a.1 p q)

add_line-IsWritable :
    (i : ℕ) (parts : List Text) (acc d : Entries)
    → All (λ w. lacks b':' w ≡ true) parts
    → All (λ w. lacks b'\n' w ≡ true) parts
    → IsWritable acc
    → add_line i parts acc ≡ ok d
    → IsWritable d
unfolding add_line
add_line-IsWritable i [] acc d c l w h = cc
add_line-IsWritable i (a ∷ []) acc d c l w h = cc
add_line-IsWritable i (user ∷ hash ∷ []) acc d c l w h = with_user (lookup user acc) refl h
  where
    added : lookup user acc ≡ none → acc ++ (user, hash) ∷ [] ≡ d → IsWritable d
    added n e = rw (sym e) (record {
      plain = IsPlain-append acc user hash w.plain (c.0, l.0) (c.1.0, l.1.0);
      distinct = others acc user hash n w.distinct;
    })

    with_user :
        (o : Option Text)
        → lookup user acc ≡ o
        → (if is_some o then err (overriding user i) else ok (acc ++ (user, hash) ∷ [])) ≡ ok d
        → IsWritable d
    with_user none n k = added n (cc)
    with_user (some g) n k = cc
add_line-IsWritable i (a ∷ b ∷ e ∷ ps) acc d c l w h = cc

load_lines-IsWritable :
    (i : ℕ) (ls : List Text) (acc d : Entries)
    → All (λ w. lacks b'\n' w ≡ true) ls
    → IsWritable acc
    → load_lines i ls acc ≡ ok d
    → IsWritable d
unfolding load_lines
load_lines-IsWritable i [] acc d l w h = let same : acc ≡ d = cc in rw (sym same) w
load_lines-IsWritable i ([] ∷ ls) acc d l w h = load_lines-IsWritable (i + 1) ls acc d l.1 w h
load_lines-IsWritable i ((c ∷ t) ∷ ls) acc d l w h =
    step (add_line i (split_on b':' (c ∷ t)) acc) refl h
      (λ d'. load_lines-IsWritable (i + 1) ls d' d l.1)
  where
    step :
        (r : Result Entries)
        → add_line i (split_on b':' (c ∷ t)) acc ≡ r
        → after_line i ls r ≡ ok d
        → ((d' : Entries) → IsWritable d' → load_lines (i + 1) ls d' ≡ ok d → IsWritable d)
        → IsWritable d
    step (ok d') e k next =
        next d'
          (add_line-IsWritable i (split_on b':' (c ∷ t)) acc d' (split_on-All b':' (c ∷ t))
            (split_on-All-lacks b':' b'\n' (c ∷ t) l.0) w e)
          k
    step (err x) e k next = cc

pub load_file-IsWritable : (text : Text) (d : Entries) → load_file (some text) ≡ ok d → IsWritable d
unfolding load_file
load_file-IsWritable text d h =
    load_lines-IsWritable 0 (split_on b'\n' text) [] d (split_on-All b'\n' text)
      (record { plain = tt; distinct = tt }) h
