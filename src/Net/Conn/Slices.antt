-- ===== src/Net/Conn/Slices.antt =====
-- conn_unix.go: the slices of a Writev, and their bytes up to the one in which a number ends.
use nbio.Base.{
  ℕ, zero, suc, ◌-◌, ◌≤◌, ◌<◌, ◌≡◌, inl, inr, refl, ap, ◌∙◌, true, not, List, [], ◌∷◌, ◌++◌, Bytes,
  length, take, drop, ltb, if◌then◌else◌, arith, Bool-cases, append-nil, append_assoc,
  length-append, take-append-drop, take-append_le,
}
use nbio.Net.Conn.{concat}
use nbio.Net.Conn.Write.{not_nil}

-- The buffers up to the one in which the `n`-th byte stands.
abbrev pub through : List Bytes → ℕ → Bytes
through [] n = []
through (b ∷ bs) n = if ltb 0 n then b ++ through bs (n - length b) else []

abbrev pub AllFull : List Bytes → Type 0
AllFull [] = Unit {0}
AllFull (b ∷ bs) = (0 < length b) × AllFull bs

-- What the loop behind a partial write puts on the list.
abbrev pub rest_of : List Bytes → ℕ → Bytes
rest_of [] n = []
rest_of (b ∷ bs) n =
    if not (ltb 0 n) then [] else if ltb n (length b) then drop n b else rest_of bs (n - length b)

pub not_nil_full : (bs : List Bytes) → AllFull bs → not_nil bs ≡ bs
not_nil_full [] h = refl
not_nil_full ([] ∷ bs) h = absurd (omega (arith, h.0))
not_nil_full ((x ∷ b) ∷ bs) h = ap (λ t. (x ∷ b) ∷ t) (not_nil_full bs h.1)

pub through-zero : (bs : List Bytes) → through bs 0 ≡ []
through-zero [] = refl
through-zero (b ∷ bs) = refl

pub take_behind :
    (n : ℕ) (b t : Bytes) → length b ≤ n → take n (b ++ t) ≡ b ++ take (n - length b) t
take_behind n [] t h = ap (λ k. take k t) (omega arith)
take_behind zero (x ∷ b) t h = absurd (omega arith)
take_behind (suc n) (x ∷ b) t h =
    ap (λ t. x ∷ t) (take_behind n b t (omega arith) ∙ ap (λ k. b ++ take k t) (omega arith))

pub take-rest_of : (bs : List Bytes) (n : ℕ) → take n (concat bs) ++ rest_of bs n ≡ through bs n
take-rest_of [] zero = refl
take-rest_of [] (suc n) = refl
take-rest_of (b ∷ bs) n = elim (Bool-cases (ltb 0 n)) [
  | inl some_left ↦ elim (Bool-cases (ltb n (length b))) [
    | inl inside ↦
        let over : n - length b ≡ 0 = ground arith in
        rw (some_left, inside, over, through-zero bs, append-nil b)
          (ap (λ t. t ++ drop n b) (take-append_le n b (concat bs) (ground arith))
            ∙ take-append-drop n b)
    | inr past ↦
        rw (some_left, past, take_behind n b (concat bs) (ground arith))
          (append_assoc b (take (n - length b) (concat bs)) (rest_of bs (n - length b))
            ∙ ap (λ t. b ++ t) (take-rest_of bs (n - length b)))
  ]
  | inr gone ↦ let nothing : n ≡ 0 = ground arith in rw nothing refl
]

pub through_all :
    (bs : List Bytes) (n : ℕ) → AllFull bs → length (concat bs) ≤ n → through bs n ≡ concat bs
through_all [] n h l = refl
through_all (b ∷ bs) n h l =
    let size = length-append b (concat bs) in
    let some_left : ltb 0 n ≡ true = ground (arith, h.0) in
    rw some_left (ap (λ t. b ++ t) (through_all bs (n - length b) h.1 (omega arith)))
