-- ===== src/Mbf/Wire/Snapshot/Items.antt =====
-- The lists of a snapshot are read back: items, datoms, counters and idempotence keys.
use metri_engine.Base.{
  ℕ, suc, ◌<◌, ◌^◌, true, not, ◌&&◌, List, [], ◌∷◌, ◌++◌, Text, ◌≡◌, refl, ap, sym, ◌∙◌, ok,
  text_eq, text_Eq, text_eq_iff, length, Bool-cases, inl, inr,
}
use mathlib.Core.List.{append_assoc, append-nil}
use metri_engine.Base.Int.{IsI64, as_unsigned, as_i64-as_unsigned, as_unsigned-below}
use metri_engine.Base.Strings.{is_empty}
use metri_engine.Base.Sorting.{All, IsMap}
use metri_engine.Base.LittleEndian.{to_le_bytes}
use metri_engine.Mbf.Wire.Bytes.{
  Utf8, IsStr, IsShort, read_word-append, read_str_binary-append, write_bytes_slice,
  read_bytes_slice-write_bytes_slice,
}
use metri_engine.Mbf.Wire.ItemMap.{Item, write_item_map_compact}
use metri_engine.Mbf.Wire.ItemMap.RoundTrip.{IsEntry, SameMap}
use metri_engine.Mbf.Wire.ItemMap.Elision.{read-write_item_map_compact}
use metri_engine.Mbf.Wire.Snapshot.{
  PrimaryKey, Counter, IdempotenceKey, write_items, write_counters, write_idem, write_datoms,
  read_pk, read_items, read_counters, read_idem, read_datoms,
}

-- the same keys in the same order, with the same maps
abbrev pub SameRows : {K : Type 0} → List (K × Item) → List (K × Item) → Type 0
SameRows [] [] = Unit
SameRows [] ((k, n) ∷ ns) = ⊥
SameRows ((k, m) ∷ ms) [] = ⊥
SameRows ((j, m) ∷ ms) ((k, n) ∷ ns) = (j ≡ k) × SameMap m n × SameRows ms ns

next_pk : (prev pk : Text) → not (is_empty prev) && text_eq pk prev ≡ true → prev ≡ pk
next_pk [] pk h = absurd cc
next_pk (c ∷ prev) pk h = sym ((text_eq_iff pk (c ∷ prev)).0 h)

module _ (utf8 : Utf8) where
  -- an item that a snapshot can hold
  abbrev pub IsMapOfEntries : Item → Type 0
  IsMapOfEntries item = IsMap item × All (IsEntry utf8) item × (length item < 2 ^ 16)

  abbrev pub IsRow : PrimaryKey × Item → Type 0
  IsRow ((pk, sk), item) = IsStr utf8 pk × IsShort sk × IsMapOfEntries item

  abbrev pub IsDatomRow : List ℕ × Item → Type 0
  IsDatomRow (sk, item) = IsShort sk × IsMapOfEntries item

  read_pk-same :
      (prev pk : Text) (rest : List ℕ)
      → prev ≡ pk
      → read_pk utf8 prev ((0x01 ∷ []) ++ rest) ≡ ok (pk, rest)
  unfolding read_pk
  read_pk-same prev pk rest e = ap (λ k. ok (k, rest)) e

  read_pk-other :
      (prev pk : Text) (rest : List ℕ)
      → IsStr utf8 pk
      → read_pk utf8 prev ((0x00 ∷ write_bytes_slice pk) ++ rest) ≡ ok (pk, rest)
  unfolding read_pk
  read_pk-other prev pk rest h = read_str_binary-append utf8 pk rest h

  -- one item after its key, then the others
  read_row :
      (pk : Text) (sk : List ℕ) (item : Item) (n : ℕ) (written rest : List ℕ)
      (items others : List (PrimaryKey × Item))
      → (prev : Text) (front : List ℕ)
      → ((r : List ℕ) → read_pk utf8 prev (front ++ r) ≡ ok (pk, r))
      → IsShort sk
      → IsMapOfEntries item
      → read_items utf8 true n pk (written ++ rest) ≡ ok (others, rest)
      → SameRows others items
      → (found : List (PrimaryKey × Item)) × (read_items utf8 true (suc n) prev (
            (front ++ (write_bytes_slice sk ++ (write_item_map_compact pk sk item ++ written)))
            ++ rest)
          ≡ ok (found, rest))
        × SameRows found (((pk, sk), item) ∷ items)
  unfolding read_items
  read_row pk sk item n written rest items others prev front key short (map, fits, small) later
        same =
      let (m, read_m, same_m) =
        read-write_item_map_compact utf8 pk sk item (written ++ rest) map fits small in
      (
        ((pk, sk), m) ∷ others,
        rw
            (
              append_assoc front
                  (write_bytes_slice sk ++ (write_item_map_compact pk sk item ++ written)) rest,
              append_assoc (write_bytes_slice sk) (write_item_map_compact pk sk item ++ written)
                  rest,
              append_assoc (write_item_map_compact pk sk item) written rest,
              key (
                  write_bytes_slice sk ++ (write_item_map_compact pk sk item ++ (written ++ rest))),
              read_bytes_slice-write_bytes_slice sk
                  (write_item_map_compact pk sk item ++ (written ++ rest)) short,
              read_m,
              later,
            )
            refl,
        (refl, same_m, same),
      )

  -- The items of a partition are read back, whatever the key read before.
  pub read_items-write_items :
      (prev : Text) (items : List (PrimaryKey × Item)) (rest : List ℕ)
      → All IsRow items
      → (found : List (PrimaryKey × Item)) × (read_items utf8 true
            (length items)
            prev
            (write_items prev items ++ rest)
          ≡ ok (found, rest))
        × SameRows found items
  unfolding write_items read_items
  read_items-write_items prev [] rest h = ([], refl, tt)
  read_items-write_items prev (((pk, sk), item) ∷ items) rest ((hp, hs, hm), h) =
      let (others, later, same) = read_items-write_items pk items rest h in
      elim (Bool-cases (not (is_empty prev) && text_eq pk prev)) [
        | inl e ↦
            rw (e, next_pk prev pk e)
              (read_row pk sk item (length items) (write_items pk items) rest items others pk
                (0x01 ∷ []) (λ r. read_pk-same pk pk r refl) hs hm later same)
        | inr e ↦ rw e (
            read_row pk sk item (length items) (write_items pk items) rest items others prev
              (0x00 ∷ write_bytes_slice pk) (λ r. read_pk-other prev pk r hp) hs hm later same)
      ]

  pub read_datoms-write_datoms :
      (pk : Text) (datoms : List (List ℕ × Item)) (rest : List ℕ)
      → All IsDatomRow datoms
      → (found : List (List ℕ × Item)) × (read_datoms utf8 true pk
            (length datoms)
            (write_datoms pk datoms ++ rest)
          ≡ ok (found, rest))
        × SameRows found datoms
  unfolding write_datoms read_datoms
  read_datoms-write_datoms pk [] rest h = ([], refl, tt)
  read_datoms-write_datoms pk ((sk, item) ∷ datoms) rest ((hs, (map, fits, small)), h) =
      let (others, later, same) = read_datoms-write_datoms pk datoms rest h in
      let written : List ℕ = write_datoms pk datoms in
      let (m, read_m, same_m) =
        read-write_item_map_compact utf8 pk sk item (written ++ rest) map fits small in
      (
        (sk, m) ∷ others,
        rw
            (
              append_assoc (write_bytes_slice sk) (write_item_map_compact pk sk item ++ written)
                  rest,
              append_assoc (write_item_map_compact pk sk item) written rest,
              read_bytes_slice-write_bytes_slice sk
                  (write_item_map_compact pk sk item ++ (written ++ rest)) hs,
              read_m,
              later,
            )
            refl,
        (refl, same_m, same),
      )

  abbrev pub IsCounter : Counter → Type 0
  IsCounter ((t, q), val) = IsStr utf8 t × IsStr utf8 q × IsI64 val

  pub read_counters-write_counters :
      (counters : List Counter) (rest : List ℕ)
      → All IsCounter counters
      → read_counters utf8 (length counters) (write_counters counters ++ rest) ≡ ok (counters, rest)
  unfolding write_counters read_counters
  read_counters-write_counters [] rest h = refl
  read_counters-write_counters (((t, q), val) ∷ counters) rest ((ht, hq, hv), h) =
      let written : List ℕ = write_counters counters in
      let val_bytes : List ℕ = to_le_bytes 8 (as_unsigned 64 val) in
      rw
        (
          append_assoc (write_bytes_slice t) (write_bytes_slice q ++ (val_bytes ++ written)) rest,
          append_assoc (write_bytes_slice q) (val_bytes ++ written) rest,
          append_assoc val_bytes written rest,
          read_str_binary-append utf8 t (write_bytes_slice q ++ (val_bytes ++ (written ++ rest)))
              ht,
          read_str_binary-append utf8 q (val_bytes ++ (written ++ rest)) hq,
          read_word-append 8 (as_unsigned 64 val) (written ++ rest) (as_unsigned-below val hv),
          read_counters-write_counters counters rest h,
          as_i64-as_unsigned val hv,
        )
        refl

  abbrev pub IsIdempotenceKey : IdempotenceKey → Type 0
  IsIdempotenceKey ((t, ik), (qid, delta)) =
      IsStr utf8 t × IsStr utf8 ik × IsStr utf8 qid × IsI64 delta

  pub read_idem-write_idem :
      (idem : List IdempotenceKey) (rest : List ℕ)
      → All IsIdempotenceKey idem
      → read_idem utf8 (length idem) (write_idem idem ++ rest) ≡ ok (idem, rest)
  unfolding write_idem read_idem
  read_idem-write_idem [] rest h = refl
  read_idem-write_idem (((t, ik), (qid, delta)) ∷ idem) rest ((ht, hi, hq, hd), h) =
      let written : List ℕ = write_idem idem in
      let delta_bytes : List ℕ = to_le_bytes 8 (as_unsigned 64 delta) in
      rw
        (
          append_assoc (write_bytes_slice t)
              (write_bytes_slice ik ++ (write_bytes_slice qid ++ (delta_bytes ++ written))) rest,
          append_assoc (write_bytes_slice ik) (write_bytes_slice qid ++ (delta_bytes ++ written))
              rest,
          append_assoc (write_bytes_slice qid) (delta_bytes ++ written) rest,
          append_assoc delta_bytes written rest,
          read_str_binary-append utf8 t
              (write_bytes_slice ik
                ++ (write_bytes_slice qid ++ (delta_bytes ++ (written ++ rest))))
              ht,
          read_str_binary-append utf8 ik
              (write_bytes_slice qid ++ (delta_bytes ++ (written ++ rest))) hi,
          read_str_binary-append utf8 qid (delta_bytes ++ (written ++ rest)) hq,
          read_word-append 8 (as_unsigned 64 delta) (written ++ rest) (as_unsigned-below delta hd),
          read_idem-write_idem idem rest h,
          as_i64-as_unsigned delta hd,
        )
        refl

  -- where nothing follows
  pub read_idem_end :
      (idem : List IdempotenceKey)
      → All IsIdempotenceKey idem
      → read_idem utf8 (length idem) (write_idem idem) ≡ ok (idem, [])
  read_idem_end idem h =
      ap (read_idem utf8 (length idem)) (sym (append-nil (write_idem idem)))
      ∙ read_idem-write_idem idem [] h

  pub read_datoms_end :
      (pk : Text) (datoms : List (List ℕ × Item))
      → All IsDatomRow datoms
      → (found : List (List ℕ × Item)) × (read_datoms utf8 true pk
            (length datoms)
            (write_datoms pk datoms)
          ≡ ok (found, []))
        × SameRows found datoms
  read_datoms_end pk datoms h =
      let (found, back, same) = read_datoms-write_datoms pk datoms [] h in
      (
        found,
        ap (read_datoms utf8 true pk (length datoms)) (sym (append-nil (write_datoms pk datoms)))
            ∙ back,
        same,
      )
