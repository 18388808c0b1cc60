-- ===== src/Websocket/SendQueue/States.antt =====
-- The states of the send queue of nbhttp/websocket/conn.go, and whose turn a step takes.
use nbio.Base.{
  ℕ, zero, suc, ◌+◌, ◌≡◌, ◌≢◌, refl, sym, ap, ◌∙◌, true, false, List, [], ◌∷◌, ◌++◌, Option, none,
  some, Bytes, length, map, append_assoc, arith,
}
use nbio.Websocket.SendQueue.{Writer, writing, written, Sender, entry, set_nil}

-- A queue whose first entries are taken.
abbrev pub nils : ℕ → List Bytes → List (Option Bytes)
nils zero bs = map some bs
nils (suc n) bs = none ∷ nils n bs

-- No writer and an empty queue; one writer, with the frames behind its own in the queue; one that has
-- written; or a connection that is closed or broken, where the frames that are sent are the first of
-- those taken, the one in hand being next.
pub data State (s : Sender) : Type 0 where
  idle : s.writers ≡ [] → s.send_queue ≡ [] → s.closed ≡ false → s.accepted ≡ s.sent → State s
  busy :
      (i : ℕ) (b : Bytes) (rest : List Bytes)
      → s.writers ≡ writing i b ∷ []
      → s.send_queue ≡ nils (suc i) rest
      → s.closed ≡ false
      → s.accepted ≡ s.sent ++ b ∷ rest
      → State s
  between :
      (i : ℕ) (rest : List Bytes)
      → s.writers ≡ written (suc i) ∷ []
      → s.send_queue ≡ nils (suc i) rest
      → s.closed ≡ false
      → s.accepted ≡ s.sent ++ rest
      → State s
  stuck :
      (rest : List Bytes)
      → s.writers ≡ []
      → s.send_queue ≢ []
      → s.broken ≡ true
      → s.accepted ≡ s.sent ++ rest
      → State s
  shut_writing :
      (i : ℕ) (b : Bytes) (rest : List Bytes)
      → s.writers ≡ writing i b ∷ []
      → s.closed ≡ true
      → s.accepted ≡ s.sent ++ b ∷ rest
      → State s
  shut_written :
      (i : ℕ) (rest : List Bytes)
      → s.writers ≡ written i ∷ []
      → s.closed ≡ true
      → s.accepted ≡ s.sent ++ rest
      → State s
  shut :
      (rest : List Bytes) → s.writers ≡ [] → s.closed ≡ true → s.accepted ≡ s.sent ++ rest → State s

-- The only entry of a list.
pub only :
    (v w : Writer) (xs ys : List Writer) → v ∷ [] ≡ xs ++ w ∷ ys → (xs ≡ []) × (ys ≡ []) × (v ≡ w)
only v w [] ys e = (refl, cc, cc)
only v w (x ∷ []) ys e = cc
only v w (x ∷ y ∷ xs) ys e = cc

pub none_left : (w : Writer) (xs ys : List Writer) → [] ≢ xs ++ w ∷ ys
none_left w [] ys e = cc
none_left w (x ∷ xs) ys e = cc

pub nils_more :
    (n : ℕ) (bs : List Bytes) (b : Bytes) → nils n bs ++ some b ∷ [] ≡ nils n (bs ++ b ∷ [])
nils_more zero [] b = refl
nils_more zero (c ∷ bs) b = ap (λ t. some c ∷ t) (nils_more zero bs b)
nils_more (suc n) bs b = ap (λ t. none ∷ t) (nils_more n bs b)

pub entry-nils : (n : ℕ) (b : Bytes) (bs : List Bytes) → entry (nils n (b ∷ bs)) n ≡ some b
entry-nils zero b bs = refl
entry-nils (suc n) b bs = entry-nils n b bs

pub set_nil-nils :
    (n : ℕ) (b : Bytes) (bs : List Bytes) → set_nil (nils n (b ∷ bs)) n ≡ nils (suc n) bs
set_nil-nils zero b bs = refl
set_nil-nils (suc n) b bs = ap (λ t. none ∷ t) (set_nil-nils n b bs)

pub length-nils : (n : ℕ) (bs : List Bytes) → length (nils n bs) ≡ n + length bs
length-nils zero [] = omega arith
length-nils zero (b ∷ bs) = omega (arith, length-nils zero bs)
length-nils (suc n) bs = omega (arith, length-nils n bs)

-- What a state's only writer is, where a step moves one.
pub busy_writer :
    (s : Sender) {i j : ℕ} {b d : Bytes} {xs ys : List Writer}
    → s.writers ≡ writing i b ∷ []
    → s.writers ≡ xs ++ writing j d ∷ ys
    → (xs ≡ []) × (ys ≡ []) × (i ≡ j) × (b ≡ d)
busy_writer s {i} {j} {b} {d} {xs} {ys} h e =
    let (front, back, same) = only (writing i b) (writing j d) xs ys (sym h ∙ e) in
    (front, back, cc, cc)

pub written_writer :
    (s : Sender) {i j : ℕ} {xs ys : List Writer}
    → s.writers ≡ written i ∷ []
    → s.writers ≡ xs ++ written j ∷ ys
    → (xs ≡ []) × (ys ≡ []) × (i ≡ j)
written_writer s {i} {j} {xs} {ys} h e =
    let (front, back, same) = only (written i) (written j) xs ys (sym h ∙ e) in (front, back, cc)

pub not_written :
    (s : Sender) (i j : ℕ) (b : Bytes) (xs ys : List Writer)
    → s.writers ≡ writing i b ∷ []
    → s.writers ≡ xs ++ written j ∷ ys
    → ⊥
not_written s i j b xs ys h e =
    let (front, back, same) = only (writing i b) (written j) xs ys (sym h ∙ e) in cc same

pub not_writing :
    (s : Sender) (i j : ℕ) (b : Bytes) (xs ys : List Writer)
    → s.writers ≡ written i ∷ []
    → s.writers ≡ xs ++ writing j b ∷ ys
    → ⊥
not_writing s i j b xs ys h e =
    let (front, back, same) = only (written i) (writing j b) xs ys (sym h ∙ e) in cc same

pub no_writer :
    (s : Sender) (w : Writer) (xs ys : List Writer) → s.writers ≡ [] → s.writers ≡ xs ++ w ∷ ys → ⊥
no_writer s w xs ys h e = none_left w xs ys (sym h ∙ e)

pub grow : (q r rest : List Bytes) (b : Bytes) → q ≡ r ++ rest → q ++ b ∷ [] ≡ r ++ (rest ++ b ∷ [])
grow q r rest b e = ap (λ t. t ++ b ∷ []) e ∙ append_assoc r rest (b ∷ [])

pub append_ne_nil {ℓ} : {A : Type ℓ} (xs : List A) (x : A) → xs ++ x ∷ [] ≢ []
append_ne_nil [] x e = cc
append_ne_nil (y ∷ xs) x e = cc
