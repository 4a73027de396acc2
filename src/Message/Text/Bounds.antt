-- ===== src/Message/Text/Bounds.antt =====
-- The length and the characters of the text of messages (pkg/message/message.go).
use crypt_fs.Prelude.{
  ℕ, zero, suc, ◌+◌, ◌/◌, ◌%◌, ◌^◌, ◌≤◌, ◌<◌, ◌≡◌, inl, inr, refl, Option, none, some, Bool, true,
  false, ◌&&◌, [], ◌∷◌, ◌++◌, Bytes, ◌==◌, if◌then◌else◌, length, take, ltb, arith, Bool-cases, All,
  length-append, length-take,
}
use crypt_fs.Prelude.Text.{codes, hex, hex_digit}
use crypt_fs.Message.{Message, kind_get, kind_error, kind_auth}
use crypt_fs.Message.Text.{
  is_print, Scan, unprintable, too_long, short, scan, clipped, repr, decimal_digits, decimal,
  repr_fuel, string,
}

abbrev pub IsClear : Bytes → Type 0
IsClear text = All (λ b. is_print b ≡ true) text

IsClear-append : (a b : Bytes) → IsClear a → IsClear b → IsClear (a ++ b)
IsClear-append [] b ha hb = hb
IsClear-append (x ∷ a) b (h, ha) hb = (h, IsClear-append a b ha hb)

hex_digit-is_print : (n : ℕ) → n < 16 → is_print (hex_digit n) ≡ true
unfolding hex_digit
hex_digit-is_print n h = ground arith

hex-IsClear : (b : Bytes) → IsClear (hex b)
unfolding hex
hex-IsClear [] = tt
hex-IsClear (b ∷ bs) = (
  hex_digit-is_print (b / 16 % 16) (omega arith),
  (hex_digit-is_print (b % 16) (omega arith), hex-IsClear bs),
)

-- What the loop has seen where it ends in each way.
abbrev Seen : ℕ → Bytes → Scan → Type 0
Seen i bs unprintable = ¬ IsClear bs
Seen i bs too_long = (k : ℕ) → k + i ≤ 12 → IsClear (take k bs)
Seen i bs short = IsClear bs × (i ≤ 12 → i + length bs ≤ 12)

Seen-next :
    (x : Scan) (i b : ℕ) (bs : Bytes)
    → is_print b ≡ true
    → i ≤ 11
    → Seen (suc i) bs x
    → Seen i (b ∷ bs) x
Seen-next unprintable i b bs clear within h = λ c. h c.1
Seen-next too_long i b bs clear within h = go
  where
    go : (k : ℕ) → k + i ≤ 12 → IsClear (take k (b ∷ bs))
    go zero room = tt
    go (suc k) room = (clear, h k (omega (arith, room)))
Seen-next short i b bs clear within (seen, room) =
    ((clear, seen), λ _. let more = room (omega (arith, within)) in omega (arith, more))

none-left : (i k : ℕ) (bs : Bytes) → ltb 11 i ≡ true → k + i ≤ 12 → IsClear (take k bs)
none-left i zero bs past h = tt
none-left i (suc k) bs past h =
    let below : suc k + i ≤ 12 = h in absurd (ground (arith, past, below))

scan-Seen : (i : ℕ) (bs : Bytes) → Seen i bs (scan i bs)
unfolding scan
scan-Seen i [] = (tt, λ h. omega (arith, h))
scan-Seen i (b ∷ bs) = elim (Bool-cases (is_print b)) [
  | inr unclear ↦ rw unclear (λ c. let same = c.0 in cc)
  | inl clear ↦ elim (Bool-cases (ltb 11 i)) [
    | inl past ↦ rw (clear, past) (λ k h. none-left i k (b ∷ bs) past h)
    | inr within ↦
        rw (clear, within)
          (Seen-next (scan (suc i) bs) i b bs clear (ground arith) (scan-Seen (suc i) bs))
  ]
]

-- A text that is clear and not long.
pub record IsBrief (n : ℕ) (text : Bytes) : Type 0 where
  pub bounded : length text ≤ n
  pub clear : IsClear text

-- A brief text is returned.
abbrev Gives : Option Bytes → Type 0
Gives result = (text : Bytes) × (result ≡ some text) × IsBrief 12 text

clipped-Gives :
    (x : Scan) (any : Bytes) (other : Option Bytes)
    → Seen 0 any x
    → (¬ IsClear any → Gives other)
    → Gives (clipped x any other)
clipped-Gives unprintable any other h more = more h
clipped-Gives too_long any other h more = (
  take 8 any ++ codes "...",
  refl,
  record {
    bounded = omega (arith, length-append (take 8 any) (codes "..."), length-take 8 any);
    clear =
        IsClear-append (take 8 any) (codes "...") (h 8 (omega arith)) (refl, (refl, (refl, tt)));
  },
)
clipped-Gives short any other (clear, room) more = (
  any,
  refl,
  record { bounded = (let most = room (omega arith) in omega (arith, most)); clear = clear },
)

-- Hexadecimal is printable, so it is the last round.
repr-Gives : (any : Bytes) → Gives (repr repr_fuel any)
unfolding repr
repr-Gives any = clipped-Gives (scan 0 any) any (repr 0 (hex any)) (scan-Seen 0 any) (λ _.
    clipped-Gives (scan 0 (hex any)) (hex any) none (scan-Seen 0 (hex any))
      (λ unclear. absurd (unclear (hex-IsClear any))))

last-is_print : (n : ℕ) → is_print (48 + n % 10) ≡ true
last-is_print n = ground arith

decimal_digits-IsClear : (fuel n : ℕ) → IsClear (decimal_digits fuel n)
unfolding decimal_digits
decimal_digits-IsClear zero n = (last-is_print n, tt)
decimal_digits-IsClear (suc fuel) n = elim (Bool-cases (ltb n 10)) [
  | inl below ↦ rw below (last-is_print n, tt)
  | inr above ↦ rw above (
      IsClear-append (decimal_digits fuel (n / 10)) ((48 + n % 10) ∷ [])
        (decimal_digits-IsClear fuel (n / 10)) (last-is_print n, tt))
]

tenth : (k n : ℕ) → n < 10 ^ suc (suc k) → n / 10 < 10 ^ suc k
tenth k n h = omega (arith, h)

length-decimal_digits : (fuel k n : ℕ) → n < 10 ^ suc k → length (decimal_digits fuel n) ≤ suc k
unfolding decimal_digits
length-decimal_digits zero k n h = omega arith
length-decimal_digits (suc fuel) zero n h =
    let below : ltb n 10 ≡ true = ground arith in rw below (omega arith)
length-decimal_digits (suc fuel) (suc k) n h =
    let more = length-decimal_digits fuel k (n / 10) (tenth k n h) in
    elim (Bool-cases (ltb n 10)) [
      | inl below ↦ rw below (omega arith)
      | inr above ↦
          rw above
            (omega (arith, more, length-append (decimal_digits fuel (n / 10)) ((48 + n % 10) ∷ [])))
    ]

abbrev all_print : Bytes → Bool
all_print [] = true
all_print (b ∷ bs) = is_print b && all_print bs

all_print-IsClear : (text : Bytes) → all_print text ≡ true → IsClear text
all_print-IsClear [] h = tt
all_print-IsClear (b ∷ bs) h = (ground arith, all_print-IsClear bs (ground arith))

label : (text : Bytes) → all_print text ≡ true → IsBrief (length text) text
label text h = record { bounded = omega arith; clear = all_print-IsClear text h }

decimal-IsBrief : (k n : ℕ) → n < 10 ^ suc k → IsBrief (suc k) (decimal n)
decimal-IsBrief k n h = record {
  bounded = length-decimal_digits 20 k n h;
  clear = decimal_digits-IsClear 20 n;
}

joined : {i j : ℕ} {a b : Bytes} → IsBrief i a → IsBrief j b → IsBrief (i + j) (a ++ b)
joined {i} {j} {a} {b} x y = record {
  bounded = (let p = x.bounded in let q = y.bounded in omega (arith, length-append a b, p, q));
  clear = IsClear-append a b x.clear y.clear;
}

widened : {i n : ℕ} {a : Bytes} → i ≤ n → IsBrief i a → IsBrief n a
widened le x = record { bounded = (let p = x.bounded in omega (arith, p, le)); clear = x.clear }

abbrev head_of : Message → Bytes
head_of m = codes "kind=" ++ decimal m.kind ++ codes " tag=" ++ decimal m.tag

head-IsBrief : (m : Message) → m.kind < 2 ^ 8 → m.tag < 2 ^ 16 → IsBrief 18 (head_of m)
head-IsBrief m k t = widened (omega arith) (
    joined
      (joined (joined (label (codes "kind=") refl) (decimal-IsBrief 2 m.kind (omega (arith, k))))
        (label (codes " tag=") refl))
      (decimal-IsBrief 4 m.tag (omega (arith, t))))

answer-IsBrief : (b : Bool) → IsBrief 5 (if b then codes "false" else codes "true")
answer-IsBrief true = label (codes "false") refl
answer-IsBrief false = widened (omega arith) (label (codes "true") refl)

-- String returns for every message: the text has 83 bytes at most, whatever the key and the value are,
-- and each is a printable ASCII character. Within, the hexadecimal of an unprintable text is printable,
-- so that repr calls itself once at most. A kind is a uint8, a tag a uint16, a version a uint64.
pub string_lem :
    (m : Message)
    → m.kind < 2 ^ 8
    → m.tag < 2 ^ 16
    → m.version < 2 ^ 64
    → (text : Bytes) × (string m ≡ some text) × IsBrief 83 text
unfolding string
string_lem m k t v =
    let head = head-IsBrief m k t in
    let (key, key_done, key_brief) = repr-Gives m.key in
    let (value, value_done, value_brief) = repr-Gives m.value in
    let with_key = joined (joined head (label (codes " key=") refl)) key_brief in
    elim (Bool-cases (m.kind == kind_get)) [
      | inl is_get ↦ (_, rw (is_get, key_done) refl, widened (omega arith) with_key)
      | inr not_get ↦ elim (Bool-cases (m.kind == kind_error)) [
        | inl is_error ↦ (
          _,
          rw (not_get, is_error, value_done) refl,
          widened (omega arith) (joined (joined head (label (codes " value=") refl)) value_brief),
        )
        | inr not_error ↦ elim (Bool-cases (m.kind == kind_auth)) [
          | inl is_auth ↦ (
            _,
            rw (not_get, not_error, is_auth) refl,
            widened (omega arith) (
                joined (joined head (label (codes " value=") refl))
                  (answer-IsBrief (length m.value == 0))),
          )
          | inr not_auth ↦ (
            _,
            rw (not_get, not_error, not_auth, key_done, value_done) refl,
            widened (omega arith) (
                joined
                  (joined (joined (joined with_key (label (codes " value=") refl)) value_brief)
                    (label (codes " version=") refl))
                  (decimal-IsBrief 19 m.version (omega (arith, v)))),
          )
        ]
      ]
    ]
