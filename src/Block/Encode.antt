-- ===== src/Block/Encode.antt =====
-- storage/secondary/encode.rs: the fixed-width encodings of the types of values. How the crate
-- `bytes` puts and gets a number is a parameter, one for each width and byte order.
use risinglight.Prelude.{ℕ, ◌+◌, ◌≡◌, List, [], ◌∷◌, ◌++◌, Result, Never, ok, ◌>>=◌, length}
use risinglight.Block.Primitive.{PrimitiveFixedWidthEncode}
mod Laws
mod Tests

-- `put_*` and `get_*` of one kind of number, and what the code relies on.
pub record Codec (T : Type 0) : Type 0 where
  pub put : T → List ℕ
  pub get : List ℕ → Result Never (T × List ℕ)

pub record IsCodec {T : Type 0} (width : ℕ) (c : Codec T) : Type 0 where
  pub length-put : (x : T) → length (c.put x) ≡ width
  pub get-put : (x : T) (rest : List ℕ) → c.get (c.put x ++ rest) ≡ ok (x, rest)

-- types/date.rs, types/timestamp.rs, types/interval.rs: the values over their numbers
pub record Date (I32 : Type 0) : Type 0 where
  pub inner : I32

pub record Timestamp (I64 : Type 0) : Type 0 where
  pub inner : I64

pub record TimestampTz (I64 : Type 0) : Type 0 where
  pub inner : I64

pub record Interval (I32 : Type 0) : Type 0 where
  pub months : I32
  pub days : I32
  pub ms : I32

module _ {T : Type 0} (zero : T) (c : Codec T) where
  abbrev pub i16_encode : PrimitiveFixedWidthEncode T
  i16_encode = record { width = 2; default_value = zero; encode = c.put; decode = c.get }

  abbrev pub i32_encode : PrimitiveFixedWidthEncode T
  i32_encode = record { width = 4; default_value = zero; encode = c.put; decode = c.get }

  abbrev pub i64_encode : PrimitiveFixedWidthEncode T
  i64_encode = record { width = 8; default_value = zero; encode = c.put; decode = c.get }

  abbrev pub f64_encode : PrimitiveFixedWidthEncode T
  f64_encode = record { width = 8; default_value = zero; encode = c.put; decode = c.get }

  abbrev pub date_encode : PrimitiveFixedWidthEncode (Date T)
  date_encode = record {
    width = 4;
    default_value = record { inner = zero };
    encode = λ date. c.put date.inner;
    decode = λ buffer. c.get buffer >>= λ (inner, rest). ok (record { inner = inner }, rest);
  }

  abbrev pub timestamp_encode : PrimitiveFixedWidthEncode (Timestamp T)
  timestamp_encode = record {
    width = 8;
    default_value = record { inner = zero };
    encode = λ timestamp. c.put timestamp.inner;
    decode = λ buffer. c.get buffer >>= λ (inner, rest). ok (record { inner = inner }, rest);
  }

  abbrev pub timestamp_tz_encode : PrimitiveFixedWidthEncode (TimestampTz T)
  timestamp_tz_encode = record {
    width = 8;
    default_value = record { inner = zero };
    encode = λ timestamp. c.put timestamp.inner;
    decode = λ buffer. c.get buffer >>= λ (inner, rest). ok (record { inner = inner }, rest);
  }

  -- `Interval::from_days` and `Interval::from_md`
  abbrev pub from_days : T → Interval T
  from_days days = record { months = zero; days = days; ms = zero }

  abbrev pub from_md : T → T → Interval T
  from_md months days = record { months = months; days = days; ms = zero }

  abbrev pub interval_encode : PrimitiveFixedWidthEncode (Interval T)
  interval_encode = record {
    width = 4 + 4;
    default_value = from_days zero;
    encode = λ interval. c.put interval.months ++ c.put interval.days;
    decode = λ buffer. do
      (months, after) ← c.get buffer
      (days, rest) ← c.get after
      ok (from_md months days, rest);
  }
