-- ===== src/Decimal/ReadsBack.antt =====
-- The text of a double reads back as the double.
use kodlang.Base.{
  ℕ, suc, ◌+◌, ◌-◌, ◌<◌, ◌≤◌, ◌==◌, if◌then◌else◌, ◌≡◌, ◌⊎◌, inl, inr, refl, sym, subst, ap, ◌∙◌,
  Bytes, [], ◌∷◌, ◌++◌, Bool, true, false, ok, replicate, length, arith,
}
use kodlang.Base.Int.{ℤ, pos, negsuc, pos_part, neg_part}
use kodlang.Str.Repr.{str_of}
use kodlang.Decimal.{Double, kod_f64_to_str}
use kodlang.Decimal.Layout.{Prints, Tail, no_power, up, down, Shows}
use kodlang.Decimal.Shortest.{sign_text, with_point, Documented}
use kodlang.Decimal.Valid.{AllDigits-split}
use kodlang.Float.Grammar.{AllDigits, Sign, signed}
use kodlang.Decimal.Text.{IsStripped, kod_f64_to_str_lem}

-- An exponent behind its `e`: an optional sign, and three digits at most.
pub record IsExponent (w : Bytes) : Type 0 where
  pub sign : Bytes
  pub digits : Bytes
  pub split : w ≡ sign ++ digits
  pub is_signed : Sign sign
  pub all_digits : AllDigits digits
  pub some_digit : 0 < length digits
  pub few : length digits ≤ 3

-- The power of ten that an exponent at the end of a text stands for.
abbrev pub IsPower : (Bytes → ℤ) → Bytes → ℤ → Type 0
IsPower atoi tail power =
    (tail ≡ []) × (power ≡ pos 0)
    ⊎ ((w : Bytes) × (tail ≡ 101 ∷ w) × IsExponent w × (atoi w ≡ power))

-- The text behind the first `e`.
abbrev pub behind_e : Bytes → Bytes
behind_e [] = []
behind_e (c ∷ text) = let rest = behind_e text in if c == 101 then text else rest

-- What the C library documents of the exponent of "%.*e".
abbrev pub HasExponents : Double → Type 0
HasExponents d = (prec : ℕ) → 0 < prec → prec ≤ 17 → IsExponent (behind_e (d.sci (prec - 1)))

behind_e-digits : (ds power : Bytes) → AllDigits ds → behind_e (ds ++ 101 ∷ power) ≡ power
behind_e-digits [] power a = refl
behind_e-digits (d ∷ ds) power (low, high, a) =
    let no_e : (d == 101) ≡ false = ground (arith, high) in rw no_e (behind_e-digits ds power a)

behind_e-point : (ds power : Bytes) → AllDigits ds → behind_e (with_point ds ++ 101 ∷ power) ≡ power
behind_e-point [] power a = refl
behind_e-point (d ∷ []) power a = behind_e-digits (d ∷ []) power a
behind_e-point (d ∷ c ∷ ds) power (low, high, a) =
    let no_e : (d == 101) ≡ false = ground (arith, high) in
    rw no_e (behind_e-digits (c ∷ ds) power a)

pub behind_e-scientific :
    (negative : Bool) (ds power : Bytes)
    → AllDigits ds
    → behind_e (sign_text negative ++ (with_point ds ++ 101 ∷ power)) ≡ power
behind_e-scientific true ds power a = behind_e-point ds power a
behind_e-scientific false ds power a = behind_e-point ds power a

-- A text of the number 0.d₁d₂… * 10 ^ (exp + 1) with the digits `ds`, as in `Shows`, but with an
-- exponent in any form of three digits at most.
pub record Denotes (atoi : Bytes → ℤ) (ds : Bytes) (exp : ℤ) (text : Bytes) : Type 0 where
  pub left : Bytes
  pub right : Bytes
  pub behind : Bytes
  pub tail : Bytes
  pub before : ℕ
  pub after : ℕ
  pub power : ℤ
  pub split : text ≡ left ++ (behind ++ tail)
  pub some_left : 0 < length left
  pub pointed : (behind ≡ 46 ∷ right) ⊎ ((behind ≡ []) × (right ≡ []) × (0 < length tail))
  pub same_digits : left ++ right ≡ replicate before 48 ++ (ds ++ replicate after 48)
  pub is_power : IsPower atoi tail power
  pub scale :
      length left + pos_part power + neg_part exp ≡ before + pos_part exp + 1 + neg_part power

-- `atoi` reads what "%d" prints behind a sign.
pub record ReadsPrinted (atoi : Bytes → ℤ) (print : ℕ → Bytes) : Type 0 where
  pub plus : (n : ℕ) → n < 1000 → atoi (43 ∷ print n) ≡ pos n
  pub minus : (n : ℕ) → suc n < 1000 → atoi (45 ∷ print (suc n)) ≡ negsuc n

-- What `strtod` makes of a text depends only on the number that the text denotes.
pub record ByValue (atoi : Bytes → ℤ) (d : Double) : Type 0 where
  pub same :
      (negative : Bool) (ds : Bytes) (exp : ℤ) (s t : Bytes)
      → AllDigits ds
      → Denotes atoi ds exp s
      → Denotes atoi ds exp t
      → d.reads_back (sign_text negative ++ s) ≡ d.reads_back (sign_text negative ++ t)

printed :
    {print : ℕ → Bytes} {c : ℕ}
    → Prints print
    → (c ≡ 43) ⊎ (c ≡ 45)
    → (n : ℕ) → n < 1000
    → IsExponent (c ∷ print n)
printed {print} {c} p s n h = record {
  sign = c ∷ [];
  digits = print n;
  split = refl;
  is_signed = signed s;
  all_digits = p.digits n h;
  some_digit = p.some_digit n h;
  few = p.few n h;
}

IsPower-Tail :
    {atoi : Bytes → ℤ} {print : ℕ → Bytes} {tail : Bytes} {power : ℤ}
    → Prints print
    → ReadsPrinted atoi print
    → Tail print tail power
    → IsPower atoi tail power
IsPower-Tail p r no_power = inl (refl, refl)
IsPower-Tail {print = print} p r (up n h) =
    inr (43 ∷ print n, refl, printed p (inl refl) n h, r.plus n h)
IsPower-Tail {print = print} p r (down n h) =
    inr (45 ∷ print (suc n), refl, printed p (inr refl) (suc n) h, r.minus n h)

Denotes-Shows :
    {atoi : Bytes → ℤ} {print : ℕ → Bytes} {ds : Bytes} {exp : ℤ} {text : Bytes}
    → Prints print
    → ReadsPrinted atoi print
    → Shows print ds exp text
    → Denotes atoi ds exp text
Denotes-Shows p r s = record {
  left = s.left;
  right = s.right;
  behind = s.behind;
  tail = s.tail;
  before = s.before;
  after = s.after;
  power = s.power;
  split = s.split;
  some_left = s.some_left;
  pointed = s.pointed;
  same_digits = s.same_digits;
  is_power = IsPower-Tail p r s.is_tail;
  scale = s.scale;
}

Denotes-scientific :
    {atoi : Bytes → ℤ} (ds kept power : Bytes) (exp : ℤ)
    → 0 < length ds
    → IsStripped kept ds
    → IsExponent power
    → atoi power ≡ exp
    → Denotes atoi kept exp (with_point ds ++ 101 ∷ power)
Denotes-scientific [] kept power exp h t x e = absurd (omega arith)
Denotes-scientific (d ∷ []) kept power exp h t x e = record {
  left = d ∷ [];
  right = [];
  behind = [];
  tail = 101 ∷ power;
  before = 0;
  after = t.zeros;
  power = exp;
  split = refl;
  some_left = omega arith;
  pointed = inr (refl, refl, omega arith);
  same_digits = t.split;
  is_power = inr (power, refl, x, e);
  scale = omega arith;
}
Denotes-scientific (d ∷ c ∷ ds) kept power exp h t x e = record {
  left = d ∷ [];
  right = c ∷ ds;
  behind = 46 ∷ c ∷ ds;
  tail = 101 ∷ power;
  before = 0;
  after = t.zeros;
  power = exp;
  split = refl;
  some_left = omega arith;
  pointed = inl refl;
  same_digits = t.split;
  is_power = inr (power, refl, x, e);
  scale = omega arith;
}

-- The text that kod_f64_to_str makes of a finite double that is not zero reads back as the double,
-- with what the C library documents of the texts, where atoi reads what is printed for an exponent,
-- where the exponent of %.*e is an optional sign and three digits at most, and where what strtod
-- makes of a text with such an exponent, or none, depends only on the number that the text denotes.
pub reads_back-kod_f64_to_str :
    {print : ℕ → Bytes} (prints : Prints print) (atoi : Bytes → ℤ)
    → ReadsPrinted atoi print
    → (junk : ℕ → ℕ) (d : Double) → d.is_nan ≡ false
    → d.is_inf ≡ false
    → d.is_zero ≡ false
    → Documented atoi d
    → HasExponents d
    → ByValue atoi d
    → (text : Bytes) × (kod_f64_to_str print junk atoi d ≡ ok (str_of text))
      × (d.reads_back text ≡ true)
reads_back-kod_f64_to_str prints atoi r junk d nan inf nonzero k x v =
    let (prec, ds, exp, text, is, size, scientific, shown, e) =
      kod_f64_to_str_lem prints atoi junk d nan inf nonzero k in
    let sci =
      Denotes-scientific ds shown.kept scientific.power exp (omega (arith, size, is.some_digit))
        shown.stripped
        (subst IsExponent
          (ap behind_e scientific.split
            ∙ behind_e-scientific d.below_zero ds scientific.power scientific.digits)
          (x prec is.some_digit is.few))
        scientific.exponent in
    let out = Denotes-Shows prints r shown.shows in
    let t = shown.stripped in
    let kept =
      AllDigits-split shown.kept (replicate t.zeros 48)
        (subst AllDigits t.split scientific.digits) in
    (
      text,
      e,
      ap d.reads_back shown.split
          ∙ v.same d.below_zero shown.kept exp shown.number
              (with_point ds ++ 101 ∷ scientific.power) kept.0 out sci
          ∙ ap d.reads_back (sym scientific.split)
          ∙ is.reads,
    )
