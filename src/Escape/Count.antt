-- ===== src/Escape/Count.antt =====
-- What the first loop counts: where it counts none of a kind, doubling that kind changes nothing.
use rust_kingbase.Prelude.{
  ◌==◌, if◌then◌else◌, ℕ, ◌+◌, ◌≤◌, ◌≡◌, refl, ap, ap₂, subst, Bool, true, false, ◌&&◌, ◌||◌, List,
  [], ◌∷◌, ◌++◌, arith,
}
use rust_kingbase.Escape.{backslash, count_special}

-- What the second loop adds.
abbrev pub doubled : ℕ → Bool → List ℕ → List ℕ
doubled quote special [] = []
doubled quote special (c ∷ s) =
    (if c == quote || (special && c == backslash) then c ∷ c ∷ [] else c ∷ [])
    ++ doubled quote special s

-- The counts behind one character.
abbrev quotes_with : ℕ → ℕ → ℕ → ℕ
quotes_with quote c q = if c == quote then q + 1 else q

abbrev backslashes_with : ℕ → ℕ → ℕ → ℕ
backslashes_with quote c k = if c == quote then k else if c == backslash then k + 1 else k

-- The counts only grow.
quotes_grow : (quote : ℕ) (s : List ℕ) (q k : ℕ) → q ≤ (count_special quote s q k).0
unfolding count_special
quotes_grow quote [] q k = ground arith
quotes_grow quote (c ∷ s) q k =
    let rest : quotes_with quote c q
        ≤ (count_special quote s (quotes_with quote c q) (backslashes_with quote c k)).0 =
      quotes_grow quote s (quotes_with quote c q) (backslashes_with quote c k) in
    let here : q ≤ quotes_with quote c q = ground arith in omega arith

backslashes_grow : (quote : ℕ) (s : List ℕ) (q k : ℕ) → k ≤ (count_special quote s q k).1
unfolding count_special
backslashes_grow quote [] q k = ground arith
backslashes_grow quote (c ∷ s) q k =
    let rest : backslashes_with quote c k
        ≤ (count_special quote s (quotes_with quote c q) (backslashes_with quote c k)).1 =
      backslashes_grow quote s (quotes_with quote c q) (backslashes_with quote c k) in
    let here : k ≤ backslashes_with quote c k = ground arith in omega arith

-- No quote counted.
pub no_quotes :
    (quote : ℕ) (s : List ℕ) (q k : ℕ)
    → (count_special quote s q k).0 ≡ 0
    → doubled quote false s ≡ s
unfolding count_special
no_quotes quote [] q k h = refl
no_quotes quote (c ∷ s) q k h =
    let grown : quotes_with quote c q
        ≤ (count_special quote s (quotes_with quote c q) (backslashes_with quote c k)).0 =
      quotes_grow quote s (quotes_with quote c q) (backslashes_with quote c k) in
    let none_left : quotes_with quote c q ≤ 0 = subst (λ n. quotes_with quote c q ≤ n) h grown in
    let other : (c == quote) ≡ false = ground arith in
    rw other (ap (c ∷◌) (no_quotes quote s (quotes_with quote c q) (backslashes_with quote c k) h))

agrees :
    (quote c k : ℕ) (b : Bool)
    → backslashes_with quote c k ≤ 0
    → (c == quote || (true && c == backslash)) ≡ (c == quote || (b && c == backslash))
agrees quote c k true h = refl
agrees quote c k false h = ground arith

-- No backslash counted: whether backslashes are doubled makes no difference.
pub no_backslashes :
    (quote : ℕ) (b : Bool) (s : List ℕ) (q k : ℕ)
    → (count_special quote s q k).1 ≡ 0
    → doubled quote true s ≡ doubled quote b s
unfolding count_special
no_backslashes quote b [] q k h = refl
no_backslashes quote b (c ∷ s) q k h =
    let grown : backslashes_with quote c k
        ≤ (count_special quote s (quotes_with quote c q) (backslashes_with quote c k)).1 =
      backslashes_grow quote s (quotes_with quote c q) (backslashes_with quote c k) in
    let none_left : backslashes_with quote c k ≤ 0 =
      subst (λ n. backslashes_with quote c k ≤ n) h grown in
    let same : (c == quote || (true && c == backslash)) ≡ (c == quote || (b && c == backslash)) =
      agrees quote c k b none_left in
    ap₂ (λ t u. (if t then c ∷ c ∷ [] else c ∷ []) ++ u) same
      (no_backslashes quote b s (quotes_with quote c q) (backslashes_with quote c k) h)
