-- ===== src/Block/Encode/Laws.antt =====
-- What comes back from the encodings.
use risinglight.Prelude.{ℕ, ◌≡◌, refl, List, ◌++◌, append_assoc, ok, length, length-append, arith}
use risinglight.Block.Primitive.{IsFixedWidthEncode}
use risinglight.Block.Encode.{
  Codec, IsCodec, Interval, date_encode, timestamp_encode, timestamp_tz_encode, interval_encode,
}

-- Dates, and timestamps without and with a time zone, come back as they were, from as many bytes as
-- the width says, if the numbers that they are written with do.
pub date_timestamp-IsFixedWidthEncode :
    {I32 I64 : Type 0} (zero32 : I32) (zero64 : I64) (c32 : Codec I32) (c64 : Codec I64)
    → IsCodec 4 c32
    → IsCodec 8 c64
    → IsFixedWidthEncode (date_encode zero32 c32)
      × IsFixedWidthEncode (timestamp_encode zero64 c64)
      × IsFixedWidthEncode (timestamp_tz_encode zero64 c64)
date_timestamp-IsFixedWidthEncode zero32 zero64 c32 c64 l32 l64 = (
  record {
    length-encode = λ x. l32.length-put x.inner;
    decode-encode = λ x rest. rw (l32.get-put x.inner rest) refl;
  },
  record {
    length-encode = λ x. l64.length-put x.inner;
    decode-encode = λ x rest. rw (l64.get-put x.inner rest) refl;
  },
  record {
    length-encode = λ x. l64.length-put x.inner;
    decode-encode = λ x rest. rw (l64.get-put x.inner rest) refl;
  },
)

module _ {T : Type 0} (zero : T) (c : Codec T) where
  -- An interval that is written and read again takes the eight bytes of its width, and keeps its
  -- months and days; its milliseconds come back as zero, whatever they were.
  pub interval_round_trip :
      (interval : Interval T) (rest : List ℕ)
      → IsCodec 4 c
      → (length ((interval_encode zero c).encode interval) ≡ (interval_encode zero c).width)
        × ((interval_encode zero c).decode ((interval_encode zero c).encode interval ++ rest)
            ≡ ok (record interval { ms = zero }, rest))
  interval_round_trip interval rest l =
      let total = length-append (c.put interval.months) (c.put interval.days) in
      (
        omega (arith, total, l.length-put interval.months, l.length-put interval.days),
        rw
            (
              append_assoc,
              l.get-put interval.months (c.put interval.days ++ rest),
              l.get-put interval.days rest,
            )
            refl,
      )
