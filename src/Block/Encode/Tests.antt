-- ===== src/Block/Encode/Tests.antt =====
-- The encodings over numbers of one byte with three or seven bytes of padding.
use risinglight.Prelude.{ℕ, ◌≡◌, refl, [], ◌∷◌, ◌++◌, ok, panic, length}
use risinglight.Block.Primitive.{IsFixedWidthEncode}
use risinglight.Block.Encode.{
  Codec, IsCodec, date_encode, timestamp_encode, timestamp_tz_encode, interval_encode,
}
use risinglight.Block.Encode.Laws.{date_timestamp-IsFixedWidthEncode, interval_round_trip}

abbrev four_bytes : Codec ℕ
four_bytes = record {
  put = λ v. 0 ∷ 0 ∷ 0 ∷ v ∷ [];
  get = elim [ a ∷ b ∷ c ∷ v ∷ rest ↦ ok (v, rest) | _ ↦ panic ];
}

four_bytes-IsCodec : IsCodec 4 four_bytes
four_bytes-IsCodec = record { length-put = λ x. refl; get-put = λ x rest. refl }

interval_round_trip_example :
    (length ((interval_encode 0 four_bytes).encode (record { months = 1; days = 2; ms = 3000 }))
      ≡ 8)
    × ((interval_encode 0 four_bytes).decode (
          (interval_encode 0 four_bytes).encode (record { months = 1; days = 2; ms = 3000 })
          ++ 9 ∷ [])
        ≡ ok (record { months = 1; days = 2; ms = 0 }, 9 ∷ []))
interval_round_trip_example =
    interval_round_trip 0 four_bytes (record { months = 1; days = 2; ms = 3000 }) (9 ∷ [])
      four_bytes-IsCodec

abbrev eight_bytes : Codec ℕ
eight_bytes = record {
  put = λ v. 0 ∷ 0 ∷ 0 ∷ 0 ∷ 0 ∷ 0 ∷ 0 ∷ v ∷ [];
  get = elim [ a ∷ b ∷ c ∷ d ∷ e ∷ f ∷ g ∷ v ∷ rest ↦ ok (v, rest) | _ ↦ panic ];
}

eight_bytes-IsCodec : IsCodec 8 eight_bytes
eight_bytes-IsCodec = record { length-put = λ x. refl; get-put = λ x rest. refl }

date_timestamp-IsFixedWidthEncode_example :
    IsFixedWidthEncode (date_encode 0 four_bytes)
    × IsFixedWidthEncode (timestamp_encode 0 eight_bytes)
    × IsFixedWidthEncode (timestamp_tz_encode 0 eight_bytes)
date_timestamp-IsFixedWidthEncode_example =
    date_timestamp-IsFixedWidthEncode 0 0 four_bytes eight_bytes four_bytes-IsCodec
      eight_bytes-IsCodec
