-- ===== src/Game/Slide.antt =====
-- What `Game2048::collapse_line` of apps/game-2048/game_2048_model.cpp does to a line, without its
-- array and its indices.
use pen_lvgl.Prelude.{
  ℕ, zero, suc, ◌+◌, ◌%◌, ◌^◌, ◌≤◌, ◌<◌, ◌≡◌, refl, sym, ◌∙◌, List, [], ◌∷◌, ◌++◌, ap, ◌==◌,
  if◌then◌else◌, length, set, replicate, arith, Bool-cases, inl, inr,
}
use pen_lvgl.Game.Line.{LineMove, compact, doubled, merge_loop, collapse_line}

-- Equal neighbours become one tile, from the start of the line on, each tile once.
abbrev pub slide : List ℕ → List ℕ
slide [] = []
slide (v ∷ []) = v ∷ []
slide (v ∷ (w ∷ rest)) =
    let merged = slide rest in
    let kept = slide (w ∷ rest) in if w == v then doubled v ∷ merged else v ∷ kept

-- The points for the tiles that appear.
abbrev pub points : List ℕ → ℕ
points [] = 0
points (v ∷ []) = 0
points (v ∷ (w ∷ rest)) =
    let merged = points rest in
    let kept = points (w ∷ rest) in if w == v then doubled v + merged else kept

-- `n` cells: the tiles, then empty cells.
abbrev pub pad : ℕ → List ℕ → List ℕ
pad zero xs = []
pad (suc n) [] = 0 ∷ pad n []
pad (suc n) (x ∷ xs) = x ∷ pad n xs

pad-nil : (n : ℕ) → pad n [] ≡ replicate n 0
pad-nil zero = refl
pad-nil (suc n) = ap (λ xs. 0 ∷ xs) (pad-nil n)

set-end :
    (done rest : List ℕ) (x v : ℕ)
    → set (done ++ x ∷ rest) (length done) v ≡ (done ++ v ∷ []) ++ rest
set-end [] rest x v = refl
set-end (d ∷ done) rest x v = ap (λ xs. d ∷ xs) (set-end done rest x v)

length-end : (done : List ℕ) (v : ℕ) → length (done ++ v ∷ []) ≡ length done + 1
length-end [] v = refl
length-end (d ∷ done) v = omega (arith, length-end done v)

append_end : (done rest : List ℕ) (v : ℕ) → (done ++ v ∷ []) ++ rest ≡ done ++ v ∷ rest
append_end [] rest v = refl
append_end (d ∷ done) rest v = ap (λ xs. d ∷ xs) (append_end done rest v)

set-next :
    (values done : List ℕ) (k output v : ℕ)
    → values ≡ done ++ replicate (suc k) 0
    → output ≡ length done
    → set values output v ≡ (done ++ v ∷ []) ++ replicate k 0
set-next values done k output v h o = rw (h, o) (set-end done (replicate k 0) 0 v)

merge_loop-values :
    (vs : List ℕ) (k : ℕ) (done : List ℕ) (output : ℕ) (r : LineMove)
    → r.values ≡ done ++ replicate k 0
    → output ≡ length done
    → length vs ≤ k
    → (merge_loop vs output r).values ≡ done ++ pad k (slide vs)
unfolding merge_loop
merge_loop-values [] k done output r h o l = h ∙ ap (λ xs. done ++ xs) (sym (pad-nil k))
merge_loop-values (v ∷ vs) zero done output r h o l = absurd (omega arith)
merge_loop-values (v ∷ []) (suc k) done output r h o l =
    rw (h, o, set-end done (replicate k 0) 0 v, append_end done (replicate k 0) v, pad-nil k) refl
merge_loop-values (v ∷ (w ∷ rest)) (suc k) done output r h o l = elim (Bool-cases (w == v)) [
  | inl e ↦ rw e (
      merge_loop-values rest k (done ++ doubled v ∷ []) (output + 1) _
        (set-next r.values done k output (doubled v) h o)
        (omega (arith, length-end done (doubled v))) (omega arith)
      ∙ append_end done _ (doubled v))
  | inr e ↦ rw e (
      merge_loop-values (w ∷ rest) k (done ++ v ∷ []) (output + 1) _
        (set-next r.values done k output v h o) (omega (arith, length-end done v)) (omega arith)
      ∙ append_end done _ v)
]

compact-length : (xs : List ℕ) → length (compact xs) ≤ length xs
unfolding compact
compact-length [] = omega arith
compact-length (x ∷ xs) = ground (arith, compact-length xs)

add_wrapped : (a b c : ℕ) → ((a + b) % 2 ^ 32 + c) % 2 ^ 32 ≡ (a + (b + c)) % 2 ^ 32
add_wrapped a b c = omega arith

below_word : (a : ℕ) → a % 2 ^ 32 < 2 ^ 32
below_word a = omega arith

merge_loop-score :
    (vs : List ℕ) (output : ℕ) (r : LineMove)
    → r.score_delta < 2 ^ 32
    → (merge_loop vs output r).score_delta ≡ (r.score_delta + points vs) % 2 ^ 32
unfolding merge_loop
merge_loop-score [] output r h = omega arith
merge_loop-score (v ∷ []) output r h = omega arith
merge_loop-score (v ∷ (w ∷ rest)) output r h = elim (Bool-cases (w == v)) [
  | inl e ↦ rw e (
      merge_loop-score rest (output + 1) _ (below_word (r.score_delta + doubled v))
      ∙ add_wrapped r.score_delta (doubled v) (points rest))
  | inr e ↦ rw e (merge_loop-score (w ∷ rest) (output + 1) _ h)
]

-- On a line of four cells, collapsing gives the tiles of `slide` and then empty cells, and the
-- score for the tiles that appear, with the wrap-around of 32 bits.
pub collapse_line-slide :
    (xs : List ℕ)
    → length xs ≡ 4
    → ((collapse_line xs).values ≡ pad 4 (slide (compact xs)))
      × ((collapse_line xs).score_delta ≡ points (compact xs) % 2 ^ 32)
unfolding collapse_line
collapse_line-slide xs h = (
  merge_loop-values (compact xs) 4 [] 0 _ refl refl (omega (arith, compact-length xs)),
  merge_loop-score (compact xs) 0 _ (omega arith) ∙ zero_points (points (compact xs)),
)
  where
    zero_points : (n : ℕ) → (0 + n) % 2 ^ 32 ≡ n % 2 ^ 32
    zero_points n = omega arith
