-- ===== src/Websocket/Head.antt =====
-- nbhttp/websocket/conn.go: the two head bytes and the length field that writeFrame lays out, as
-- nextFrame reads them.
use nbio.Base.{
  ℕ, zero, suc, ◌⊎◌, ◌+◌, ◌*◌, ◌/◌, ◌%◌, ◌^◌, ◌≤◌, ◌<◌, ◌≡◌, refl, ap, Bool, true, false, ◌&&◌, [],
  ◌∷◌, ◌++◌, Bytes, IsBytes, length, leb, ltb, ◌==◌, if◌then◌else◌, bit_or, arith, inl, inr,
  Bool-cases, all_below, all_below_sound,
}
use nbio.Websocket.Mask.{put_le}
use nbio.Websocket.Frame.{size, has_bit, low_bits, be_word, put_be, read_size, put_size, put_first}

abbrev pub mask_bit : Bool → ℕ
mask_bit masked = if masked then 128 else 0

short_table : all_below 126 (λ n. bit_or 128 (n % 256) == 128 + n && bit_or 0 (n % 256) == n) ≡ true
unfolding all_below
short_table = refl

short_byte :
    (masked : Bool) (n : ℕ) → n < 126 → bit_or (mask_bit masked) (n % 256) ≡ mask_bit masked + n
short_byte true n h = ground (arith, all_below_sound 126 _ n short_table h)
short_byte false n h = ground (arith, all_below_sound 126 _ n short_table h)

first_table :
    all_below 16 (λ op.
      (bit_or (bit_or op 0x40) 0x80 == op + 192)
      && (bit_or op 0x40 == op + 64)
      && (bit_or op 0x80 == op + 128))
    ≡ true
unfolding all_below
first_table = refl

abbrev bit_value : Bool → ℕ → ℕ
bit_value b v = if b then v else 0

first_or :
    (op : ℕ)
    → op < 16
    → (bit_or op 0x40 ≡ op + 64)
      × (bit_or op 0x80 ≡ op + 128)
      × (bit_or (bit_or op 0x40) 0x80 ≡ op + 192)
first_or op h = let row = all_below_sound 16 _ op first_table h in ground arith

put_first_lem :
    (mt : ℕ) (send fin compress : Bool)
    → mt < 16
    → put_first mt send fin compress
      ≡ (if send then mt else 0) + bit_value compress 64 + bit_value fin 128
unfolding put_first
put_first_lem mt false true true h = refl
put_first_lem mt false true false h = refl
put_first_lem mt false false true h = refl
put_first_lem mt false false false h = refl
put_first_lem mt true fin compress h =
    let same : mt % 256 ≡ mt = omega arith in rw same (ground (arith, first_or mt h))

-- The second byte and the extended length, as read_size reads them.
pub record Sized (masked : Bool) (n b0 : ℕ) (t : Bytes) : Type 0 where
  pub second : ℕ
  pub ext : Bytes
  pub splits : put_size (mask_bit masked) n ≡ second ∷ ext
  pub reads : read_size (low_bits second 7) (b0 ∷ second ∷ (ext ++ t)) ≡ size (2 + length ext) n
  pub mask_flag : has_bit second 7 ≡ masked
  pub few : length ext ≤ 8

module _ (masked : Bool) (n b0 : ℕ) (t : Bytes) where
  short_size : n < 126 → Sized masked n b0 t
  unfolding put_size read_size
  short_size h =
      let low : (mask_bit masked + n) % 2 ^ 7 ≡ n = ground arith in
      record {
        second = mask_bit masked + n;
        ext = [];
        splits = ground (arith, short_byte masked n h);
        reads = rw low (ground arith);
        mask_flag = ground arith;
        few = ground arith;
      }

  marked : (v : ℕ) → v ≡ 126 ⊎ v ≡ 127 → bit_or (mask_bit masked) v ≡ mask_bit masked + v
  marked v h = ground arith

  medium_size : 126 ≤ n → n ≤ 65535 → Sized masked n b0 t
  unfolding put_size read_size
  medium_size h l =
      let low : (mask_bit masked + 126) % 2 ^ 7 ≡ 126 = ground arith in
      let value : (0 * 256 + n / 256 % 256) * 256 + n % 256 ≡ n = omega arith in
      record {
        second = mask_bit masked + 126;
        ext = put_be 2 n;
        splits = ground (arith, marked 126 (inl refl));
        reads = rw (low, value) (ground arith);
        mask_flag = ground arith;
        few = ground arith;
      }

  long_size : 65535 < n → n < 2 ^ 63 → Sized masked n b0 t
  unfolding put_size read_size
  long_size h l =
      let low : (mask_bit masked + 127) % 2 ^ 7 ≡ 127 = ground arith in
      let value : be_word (put_be 8 n) ≡ n = omega arith in
      record {
        second = mask_bit masked + 127;
        ext = put_be 8 n;
        splits = ground (arith, marked 127 (inr refl));
        reads = rw (low, value) (ground arith);
        mask_flag = ground arith;
        few = ground arith;
      }

pub put_size-Sized : (masked : Bool) (n b0 : ℕ) (t : Bytes) → n < 2 ^ 63 → Sized masked n b0 t
put_size-Sized masked n b0 t h = elim (Bool-cases (ltb n 126)) [
  | inl short ↦ short_size masked n b0 t (ground arith)
  | inr long ↦ elim (Bool-cases (leb n 65535)) [
    | inl medium ↦ medium_size masked n b0 t (ground arith) (ground arith)
    | inr big ↦ long_size masked n b0 t (ground arith) h
  ]
]

-- The first byte tells the opcode and the flags apart.
byte_parts :
    (op : ℕ) (fin compress : Bool)
    → op < 16
    → let x = op + bit_value compress 64 + bit_value fin 128 in
      (low_bits x 4 ≡ op)
      × (has_bit x 7 ≡ fin)
      × (has_bit x 6 ≡ compress)
      × (has_bit x 5 ≡ false)
      × (has_bit x 4 ≡ false)
byte_parts op true true h = (ground arith, ground arith, ground arith, ground arith, ground arith)
byte_parts op true false h = (ground arith, ground arith, ground arith, ground arith, ground arith)
byte_parts op false true h = (ground arith, ground arith, ground arith, ground arith, ground arith)
byte_parts op false false h = (ground arith, ground arith, ground arith, ground arith, ground arith)

abbrev pub sent : Bool → ℕ → ℕ
sent send mt = if send then mt else 0

sent_small : (send : Bool) (mt : ℕ) → mt < 16 → sent send mt < 16
sent_small send mt h = ground arith

pub first_parts :
    (mt : ℕ) (send fin compress : Bool)
    → mt < 16
    → let x = put_first mt send fin compress in
      (low_bits x 4 ≡ sent send mt)
      × (has_bit x 7 ≡ fin)
      × (has_bit x 6 ≡ compress)
      × (has_bit x 5 ≡ false)
      × (has_bit x 4 ≡ false)
first_parts mt send fin compress h =
    rw (put_first_lem mt send fin compress h)
      (byte_parts (sent send mt) fin compress (sent_small send mt h))

pub put_le-IsBytes : (n v : ℕ) → IsBytes (put_le n v)
unfolding put_le
put_le-IsBytes zero v = tt
put_le-IsBytes (suc n) v = (omega arith, put_le-IsBytes n (v / 256))

pub length-put_le : (n v : ℕ) → length (put_le n v) ≡ n
unfolding put_le
length-put_le zero v = refl
length-put_le (suc n) v = ap suc (length-put_le n (v / 256))
