-- ===== src/Mbf/Ledger/Codec/RoundTrip.antt =====
-- The financial ledger zone is read back from its binary form.
use mathlib.Core.List.{append_assoc}
use metri_engine.Base.{
  ℕ, ◌<◌, ◌≤◌, ◌^◌, ◌≡◌, refl, ap, ◌∙◌, false, Option, none, some, List, [], ◌++◌, Text, ok, ltb,
  length, length-append, text_Eq, text_eq_iff, get, arith,
}
use metri_engine.Base.Int.{IsI64, as_unsigned}
use metri_engine.Base.LittleEndian.{length-to_le_bytes}
use metri_engine.Base.Sorting.{
  All, IsMap, sort_by_key, sort_by_key-All, sort_by_key-IsMap, get-sort_by_key, length-sort_by_key,
  insert_all, get-insert_all, or_get,
}
use metri_engine.Mbf.Wire.Bytes.{Utf8}
use metri_engine.Mbf.Wire.Block.{pad_to_64-extends}
use metri_engine.Mbf.Ledger.{FixedDecimal128}
use metri_engine.Mbf.Ledger.Zone.{FinancialLedgerZone}
use metri_engine.Mbf.Ledger.Codec.{
  zone4_magic, i64_bytes, write_batch, write_checkpoint, write_audit_header, write_rate,
  write_counted, encode_zone_binary, read_batch, read_checkpoint, read_audit_header, read_rate,
  read_zone, decode_zone_binary,
}
use metri_engine.Mbf.Ledger.Codec.Records.{
  IsBatch, IsCheckpoint, IsAuditHeader, IsRate, read_i64-append, read_digest,
  read_batch-write_batch, read_checkpoint-write_checkpoint, read_audit_header-write_audit_header,
  read_rate-write_rate, read_counted-write_counted,
}

-- the zone's values have the widths of the source, and it is a map of currencies
abbrev pub IsZone : Utf8 → FinancialLedgerZone → Type 0
IsZone utf8 z =
    IsI64 z.fiscal_lock_epoch_ms
    × (length z.merkle_chain_tip ≡ 32)
    × (All IsBatch z.batches × (length z.batches < 2 ^ 32))
    × (All IsCheckpoint z.checkpoints × (length z.checkpoints < 2 ^ 32))
    × (All IsAuditHeader z.audit_headers × (length z.audit_headers < 2 ^ 32))
    × (All (IsRate utf8) z.fx_rates_to_base × (length z.fx_rates_to_base < 2 ^ 32))
    × IsMap z.fx_rates_to_base

-- the same zone, its rates in any order
abbrev pub SameZone : FinancialLedgerZone → FinancialLedgerZone → Type 0
SameZone y z =
    (y.fiscal_lock_epoch_ms ≡ z.fiscal_lock_epoch_ms)
    × (y.batches ≡ z.batches)
    × (y.checkpoints ≡ z.checkpoints)
    × (y.audit_headers ≡ z.audit_headers)
    × (y.merkle_chain_tip ≡ z.merkle_chain_tip)
    × ((k : Text) → get y.fx_rates_to_base k ≡ get z.fx_rates_to_base k)

or_get-none : {V : Type 0} (o : Option V) → or_get o none ≡ o
or_get-none none = refl
or_get-none (some v) = refl

module _ (utf8 : Utf8) (z : FinancialLedgerZone) (fits : IsZone utf8 z) where
  abbrev rates : List (Text × FixedDecimal128)
  rates = sort_by_key z.fx_rates_to_base

  abbrev body : List ℕ
  body =
      i64_bytes z.fiscal_lock_epoch_ms
      ++ (z.merkle_chain_tip
          ++ (write_counted write_batch z.batches
              ++ (write_counted write_checkpoint z.checkpoints
                  ++ (write_counted write_audit_header z.audit_headers
                      ++ write_counted write_rate rates))))

  abbrev read_back : FinancialLedgerZone
  read_back = record z { fx_rates_to_base = insert_all rates [] }

  read_zone-body : (rest : List ℕ) → read_zone utf8 (body ++ rest) ≡ ok read_back
  unfolding read_zone
  read_zone-body rest = simp (append_assoc) (
      rw
        (
          read_i64-append z.fiscal_lock_epoch_ms fits.0 _,
          read_digest z.merkle_chain_tip _ fits.1,
          read_counted-write_counted write_batch read_batch IsBatch read_batch-write_batch z.batches
              fits.2.0 fits.2.1 _,
          read_counted-write_counted write_checkpoint read_checkpoint IsCheckpoint
              read_checkpoint-write_checkpoint z.checkpoints fits.3.0 fits.3.1 _,
          read_counted-write_counted write_audit_header read_audit_header IsAuditHeader
              read_audit_header-write_audit_header z.audit_headers fits.4.0 fits.4.1 _,
          read_counted-write_counted write_rate (read_rate utf8) (IsRate utf8)
              (read_rate-write_rate utf8) rates
              (sort_by_key-All (IsRate utf8) z.fx_rates_to_base fits.5.0) few rest,
        )
        refl)
    where
      few : length rates < 2 ^ 32
      few = omega (arith, fits.5.1, length-sort_by_key z.fx_rates_to_base)

  same_rate : (k : Text) → get (insert_all rates []) k ≡ get z.fx_rates_to_base k
  unfolding get
  same_rate k =
      get-insert_all rates [] k (sort_by_key-IsMap z.fx_rates_to_base fits.6)
      ∙ or_get-none (get rates k)
      ∙ get-sort_by_key z.fx_rates_to_base k fits.6

  long_enough : (rest : List ℕ) → ltb (length (zone4_magic ++ (body ++ rest))) 48 ≡ false
  long_enough rest = spare (body ++ rest) (simp (append_assoc) (enough _))
    where
      spare : (xs : List ℕ) → 40 ≤ length xs → ltb (length (zone4_magic ++ xs)) 48 ≡ false
      spare xs h = ground arith

      enough :
          (tail : List ℕ)
          → 40 ≤ length (i64_bytes z.fiscal_lock_epoch_ms ++ (z.merkle_chain_tip ++ tail))
      enough tail = omega (
        arith,
        fits.1,
        length-append (i64_bytes z.fiscal_lock_epoch_ms) (z.merkle_chain_tip ++ tail),
        length-to_le_bytes 8 (as_unsigned 64 z.fiscal_lock_epoch_ms),
        length-append z.merkle_chain_tip tail,
      )

  decoded : (rest : List ℕ) → decode_zone_binary utf8 (zone4_magic ++ (body ++ rest)) ≡ ok read_back
  unfolding decode_zone_binary
  decoded rest =
      rw (long_enough rest, (text_eq_iff zone4_magic zone4_magic).1 refl) (read_zone-body rest)

  -- A zone that is encoded is decoded to the same zone, its exchange rates in any order: values within
  -- the widths of the source, digests of 32 bytes, fewer than 2^32 records of a kind, and currencies of
  -- fewer than 2^16 bytes, none of them twice.
  pub decode-encode_zone_binary :
      (y : FinancialLedgerZone) × (decode_zone_binary utf8 (encode_zone_binary z) ≡ ok y)
      × SameZone y z
  unfolding encode_zone_binary
  decode-encode_zone_binary =
      let (padding, e) = pad_to_64-extends (zone4_magic ++ body) in
      (
        read_back,
        ap (decode_zone_binary utf8) (e ∙ append_assoc zone4_magic body padding) ∙ decoded padding,
        (refl, refl, refl, refl, refl, same_rate),
      )
