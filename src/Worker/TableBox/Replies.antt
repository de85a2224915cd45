-- ===== src/Worker/TableBox/Replies.antt =====
-- The values of a Get, put together from the replies of the servers in any order.
use flexps.Base.{
  ℕ, ◌+◌, ◌<◌, ◌≡◌, refl, sym, subst, ◌∙◌, List, [], ◌∷◌, ◌++◌, Option, some, ◌>>=◌, length,
  length-append, All, All-append_left, All-append_right, u32_mod, arith, ==_refl, append_assoc,
}
use mathlib.Core.List.{Permᴰ}
use flexps.Message.{Message, Platform, Values}
use flexps.Worker.RangeManager.{KvPairs}
use flexps.Worker.TableBox.{
  TableBox, back, front, sort, concat_vals, check_part, total_key, handle_finish, received,
}
use flexps.Worker.TableBox.Sorting.{
  RisingParts, Perm-All, sort-Perm, sort-Rising, Rising-Distinct, count_keys, count_keys-Perm,
}
use flexps.Worker.TableBox.Keys.{Rising, Rising-append_right, check_part-Rising}

-- The keys of the parts, one after the other.
abbrev pub concat_keys : {Val : Type 0} → List (KvPairs Val) → List ℕ
concat_keys [] = []
concat_keys (s ∷ parts) = s.keys ++ concat_keys parts

-- Every part has a key.
abbrev pub HaveKeys : {Val : Type 0} → List (KvPairs Val) → Type 0
HaveKeys {Val} parts = All (λ (s : KvPairs Val). 0 < length s.keys) parts

module _ {Val : Type 0} where
  pub count_keys-concat :
      (parts : List (KvPairs Val)) → count_keys parts ≡ length (concat_keys parts)
  count_keys-concat [] = refl
  count_keys-concat (s ∷ parts) =
      omega (arith, count_keys-concat parts, length-append s.keys (concat_keys parts))

  fronts_above :
      (k : ℕ) (parts : List (KvPairs Val))
      → HaveKeys parts
      → All (λ j. k < j) (concat_keys parts)
      → All (λ (t : KvPairs Val). k < front t.keys) parts
  fronts_above k [] h a = tt
  fronts_above k (s ∷ parts) h a = (
    first s.keys h.0 (All-append_left (λ j. k < j) s.keys (concat_keys parts) a),
    fronts_above k parts h.1 (All-append_right (λ j. k < j) s.keys (concat_keys parts) a),
  )
    where
      first : (ks : List ℕ) → 0 < length ks → All (λ j. k < j) ks → k < front ks
      first [] z b = absurd (omega (arith, z))
      first (j ∷ ks) z b = b.0

  parts-Rising :
      (parts : List (KvPairs Val)) → HaveKeys parts → Rising (concat_keys parts) → RisingParts parts
  parts-Rising [] h r = tt
  parts-Rising (s ∷ parts) h r = (
    later s.keys h.0 r,
    parts-Rising parts h.1 (Rising-append_right s.keys (concat_keys parts) r),
  )
    where
      later :
          (ks : List ℕ)
          → 0 < length ks
          → Rising (ks ++ concat_keys parts)
          → All (λ (t : KvPairs Val). front ks < front t.keys) parts
      later [] z b = absurd (omega (arith, z))
      later (k ∷ ks) z b =
          fronts_above k parts h.1 (All-append_right (λ j. k < j) ks (concat_keys parts) b.0)

  -- Parts whose keys rise are sorted in the order of their keys, whatever the order of arrival.
  pub sort-parts :
      (parts kvs : List (KvPairs Val))
      → HaveKeys parts
      → Rising (concat_keys parts)
      → Permᴰ parts kvs
      → sort kvs ≡ parts
  sort-parts parts kvs h r q =
      let rising = parts-Rising parts h r in
      sym (sort-Perm parts kvs q (Rising-Distinct parts rising)) ∙ sort-Rising parts rising

module _ {Val : Type 0} ⦃p : Platform⦄ where
  -- A part passes the check of `HandleFinish`.
  abbrev FitsIn : List ℕ → KvPairs Val → Type 0
  FitsIn keys s = check_part keys s.keys ≡ some tt

  parts-FitsIn :
      (pre : List ℕ) (parts : List (KvPairs Val))
      → HaveKeys parts
      → Rising (pre ++ concat_keys parts)
      → All (λ k. k + 1 < u32_mod) (concat_keys parts)
      → All (FitsIn (pre ++ concat_keys parts)) parts
  parts-FitsIn pre [] h r small = tt
  parts-FitsIn pre (s ∷ parts) h r small = (
    one s.keys h.0 r (All-append_left (λ k. k + 1 < u32_mod) s.keys (concat_keys parts) small),
    subst (λ keys. All (FitsIn keys) parts) regroup
        (parts-FitsIn (pre ++ s.keys) parts h.1 (subst Rising (sym regroup) r)
          (All-append_right (λ k. k + 1 < u32_mod) s.keys (concat_keys parts) small)),
  )
    where
      regroup : (pre ++ s.keys) ++ concat_keys parts ≡ pre ++ (s.keys ++ concat_keys parts)
      regroup = append_assoc pre s.keys (concat_keys parts)

      at_back :
          (k : ℕ) (ks : List ℕ) → All (λ j. j + 1 < u32_mod) (k ∷ ks) → back k ks + 1 < u32_mod
      at_back k [] a = a.0
      at_back k (j ∷ ks) a = at_back j ks a.1

      one :
          (ks : List ℕ)
          → 0 < length ks
          → Rising (pre ++ (ks ++ concat_keys parts))
          → All (λ k. k + 1 < u32_mod) ks
          → check_part (pre ++ (ks ++ concat_keys parts)) ks ≡ some tt
      one [] z b c = absurd (omega (arith, z))
      one (k ∷ ks) z b c = check_part-Rising pre (concat_keys parts) ks k b (at_back k ks c)

  total_key-count_keys :
      (keys : List ℕ) (parts : List (KvPairs Val))
      → All (FitsIn keys) parts
      → total_key keys parts ≡ some (count_keys parts)
  unfolding total_key
  total_key-count_keys keys [] a = refl
  total_key-count_keys keys (s ∷ parts) a = rw (a.0, total_key-count_keys keys parts a.1)

  -- For keys that rise and stay below 2^32 - 1, cut into parts that each have a key, the replies to
  -- the parts in any order of arrival leave the values of the parts in the order of the keys, and no
  -- reply in the box.
  handle_finish-Perm :
      (t : TableBox Val) (parts : List (KvPairs Val))
      → Rising (concat_keys parts)
      → All (λ k. k + 1 < u32_mod) (concat_keys parts)
      → HaveKeys parts
      → Permᴰ parts t.recv_kvs
      → handle_finish (concat_keys parts) t ≡ some (concat_vals parts, record t { recv_kvs = [] })
  unfolding handle_finish
  handle_finish-Perm t parts r small h q =
      let keys = concat_keys parts in
      let ok = Perm-All (FitsIn keys) parts t.recv_kvs q (parts-FitsIn [] parts h r small) in
      let total = total_key-count_keys keys t.recv_kvs ok in
      let all_keys : count_keys t.recv_kvs ≡ length keys =
        sym (count_keys-Perm parts t.recv_kvs q) ∙ count_keys-concat parts in
      let in_order = sort-parts parts t.recv_kvs h r q in
      rw (total, all_keys, ==_refl (length keys), in_order)

-- The replies `kvs` to the parts of a Get of `keys`, in any order: what `HandleFinish` relies on.
pub record Covers {Val : Type 0} (keys : List ℕ) (parts kvs : List (KvPairs Val)) : Type 0 where
  pub cut : concat_keys parts ≡ keys
  pub rising : Rising keys
  pub small : All (λ k. k + 1 < u32_mod) keys
  pub have_keys : HaveKeys parts
  pub any_order : Permᴰ parts kvs

module _ {Val : Type 0} ⦃p : Platform⦄ where
  -- `HandleFinish`, with the replies to the parts of a request in any order, leaves the values of the
  -- parts in the order of the keys, and no reply in the box. The keys rise and stay below 2^32 - 1.
  pub handle_finish-Covers :
      (t : TableBox Val) (keys : List ℕ) (parts : List (KvPairs Val))
      → Covers keys parts t.recv_kvs
      → handle_finish keys t ≡ some (concat_vals parts, record t { recv_kvs = [] })
  handle_finish-Covers t keys parts v =
      rw (← v.cut)
        (handle_finish-Perm t parts (rw v.cut v.rising) (rw v.cut v.small) v.have_keys v.any_order)

module _ {Val : Type 0} ⦃p : Platform⦄ ⦃w : Values Val⦄ where
  -- The keys and values of some replies.
  abbrev pub received_all : List Message → Option (List (KvPairs Val))
  received_all [] = some []
  received_all (msg ∷ msgs) = do
    kvs ← received msg.body
    rest ← received_all msgs
    some (kvs ∷ rest)
