-- ===== src/Worker/SparseTable/Rounds.antt =====
-- The rounds of a worker with a sparse table: a Get, the replies to it, and an Add.
use flexps.Base.{
  ℕ, suc, ◌+◌, ◌≤◌, ◌<◌, ◌≡◌, refl, sym, ap, subst, ◌∙◌, List, [], ◌∷◌, ◌++◌, map, Option, some,
  true, ◌==◌, ◌>>=◌, ◌>>◌, check, length, get_elem?, add_u32, add_u32_exact, sub_u32, sub_u32_exact,
  take, u32_mod, arith, append_assoc, append-nil, ==_refl,
}
use flexps.Message.{Message, Platform, Values}
use flexps.Worker.RangeManager.{KvPairs, SlicedKvs, AbstractPartitionManager}
use flexps.Worker.Blocker.{AppBlocker, wait_request}
use flexps.Worker.Blocker.Responses.{add_responses}
use flexps.Worker.TableBox.{concat_vals}
use flexps.Worker.TableBox.Replies.{received_all}
use flexps.Worker.SparseTable.{SparseTable, SparseClient, send, get_, add}
use flexps.Worker.SparseTable.Gets.{parts_of, counts, gets}
use flexps.Worker.SparseTable.Sends.{
  gets_in, gets_in-append, gets_in-send_adds, gets-state, next_msgs_lem,
}
use flexps.Worker.SparseTable.Waits.{Ready, next_msgs, asked, ahead, get_-Waiting}
use flexps.Worker.SparseTable.Answers.{Answers, get_-Answered}
use flexps.Worker.Blocker.Handles.{add_responses-handles}

-- The replies that the helper thread takes during the Get, and what the worker adds.
pub record Round (Val : Type 0) : Type 0 where
  pub replies : List Message
  pub add_keys : List ℕ
  pub add_vals : List Val

module _ {Val : Type 0} ⦃p : Platform⦄ ⦃w : Values Val⦄ (manager : AbstractPartitionManager) where
  -- A round sends messages and leaves the values of its Get; `none` also where the wait is not over
  -- after the replies.
  abbrev pub round :
      Round Val
      → SparseTable Val
      → AppBlocker (SparseClient Val)
      → Option (List Message × List Val × SparseTable Val × AppBlocker (SparseClient Val))
  round r t b = do
    (msgs, t1, b1) ← get_ manager t b
    (b2, c) ←
        add_responses t.app_thread_id t.model_id r.replies b1 (record { table = t1; vals = [] })
    done ← wait_request t.app_thread_id t.model_id b2
    check done
    (more, t2) ← add manager r.add_keys r.add_vals c.table
    some (msgs ++ more, c.vals, t2, b2)

  abbrev pub rounds :
      List (Round Val)
      → SparseTable Val
      → AppBlocker (SparseClient Val)
      → Option (List Message × List (List Val) × SparseTable Val × AppBlocker (SparseClient Val))
  rounds [] t b = some ([], [], t, b)
  rounds (r ∷ rs) t b = do
    (msgs, vals, t1, b1) ← round r t b
    (more, rest, t2, b2) ← rounds rs t1 b1
    some (msgs ++ more, vals ∷ rest, t2, b2)

  -- The replies of a round answer the request of the iteration `g`, one for each of its parts.
  pub record Served (requests : List (List ℕ)) (g : ℕ) (r : Round Val) (parts : List (KvPairs Val))
      : Type 0 where
    pub keys : List ℕ
    pub first : Message
    pub others : List Message
    pub kvs : List (KvPairs Val)
    pub at : get_elem? requests g ≡ some keys
    pub replied : r.replies ≡ first ∷ others
    pub enough : length (first ∷ others) ≡ length (parts_of manager keys)
    pub got : received_all (first ∷ others) ≡ some kvs
    pub answers : Answers keys parts kvs
    pub add_parts : SlicedKvs
    pub add_cut :
        manager.slice (record { keys = r.add_keys; vals = w.of_vals r.add_vals }) ≡ some add_parts

  -- Each round answers the iteration of its place, from the iteration `g` on.
  abbrev pub AllServed : List (List ℕ) → ℕ → List (Round Val) → List (List (KvPairs Val)) → Type 0
  AllServed requests g [] [] = Unit
  AllServed requests g (r ∷ rs) (parts ∷ all) =
      Served requests g r parts × AllServed requests (suc g) rs all
  AllServed requests g _ _ = ⊥

  -- The table after a round.
  abbrev pub after : SparseTable Val → SparseTable Val
  after t = record (asked manager t) { recv_kvs = []; add_count = suc t.get_count }

  -- An Add after its Get is sent with the iteration of the Get.
  add_lem :
      (g : ℕ) (t : SparseTable Val) (keys : List ℕ) (vals : List Val) (sliced : SlicedKvs)
      → t.get_count ≡ suc g
      → t.add_count ≡ g
      → suc g < u32_mod
      → manager.slice (record { keys = keys; vals = w.of_vals vals }) ≡ some sliced
      → add manager keys vals t
        ≡ some (send (record t { add_count = suc g }) true g sliced, record t { add_count = suc g })
  unfolding add
  add_lem g t keys vals sliced gets_done adds_done fits cut =
      let up : add_u32 t.add_count 1 ≡ suc g =
        ap (λ k. add_u32 k 1) adds_done ∙ add_u32_exact g 1 (omega (arith, fits)) ∙ omega arith in
      let own : sub_u32 t.get_count 1 ≡ g =
        ap (λ k. sub_u32 k 1) gets_done
        ∙ sub_u32_exact (suc g) 1 fits (omega arith)
        ∙ omega arith in
      let equal : (t.get_count == suc g) ≡ true =
        ap (λ k. k == suc g) gets_done ∙ ==_refl (suc g) in
      rw (up, own, equal, cut) refl

  -- A round that is answered succeeds, gives the values of its own iteration, and leaves the table ready.
  pub round-Served :
      (t : SparseTable Val) (b : AppBlocker (SparseClient Val)) (r : Round Val)
      (parts : List (KvPairs Val))
      → Ready manager t b
      → 0 < t.speculation
      → t.get_count + t.speculation < length t.keys
      → (s : Served t.keys t.get_count r parts)
      → (b' : AppBlocker (SparseClient Val)) × (round r t b
          ≡ some (
            next_msgs manager t.get_count t ++ send (after t) true t.get_count s.add_parts,
            concat_vals parts,
            after t,
            b',
          ))
        × Ready manager (after t) b'
  round-Served t b r parts v spec room s =
      let (b2, b3, made, waits, ran, over) =
        get_-Answered manager t b s.keys s.first s.others parts s.kvs [] v spec room s.at s.enough
          s.got s.answers in
      let (b2', made', w2) = get_-Waiting manager t b s.keys v spec room s.at in
      let same : b2' ≡ b2 = some-injective (sym made' ∙ made) in
      let replied : add_responses t.app_thread_id t.model_id r.replies b2
            (record { table = asked manager t; vals = [] })
          ≡ some (
            b3,
            record { table = record (asked manager t) { recv_kvs = [] }; vals = concat_vals parts },
          ) =
        subst
          (λ l.
            add_responses t.app_thread_id t.model_id l b2
              (record { table = asked manager t; vals = [] })
            ≡ some (
              b3,
              record {
                table = record (asked manager t) { recv_kvs = [] };
                vals = concat_vals parts;
              },
            ))
          (sym s.replied) ran in
      let handles : b3.recv_handle ≡ b2'.recv_handle =
        add_responses-handles t.app_thread_id t.model_id r.replies b2 b3
          (record { table = asked manager t; vals = [] })
          (record { table = record (asked manager t) { recv_kvs = [] }; vals = concat_vals parts })
          replied
        ∙ ap (λ (b : AppBlocker (SparseClient Val)). b.recv_handle) (sym same) in
      let one_more : suc (t.get_count + t.speculation) ≡ suc t.get_count + t.speculation =
        omega arith in
      let t2 : SparseTable Val = record (asked manager t) { recv_kvs = [] } in
      let added =
        add_lem t.get_count t2 r.add_keys r.add_vals s.add_parts refl v.paired
          (omega (arith, room, v.few)) s.add_cut in
      (
        b3,
        rw (made, replied, over, added) refl,
        record {
          paired = refl;
          counted = ap (λ k. counts manager (take k t.keys)) one_more;
          box_empty = refl;
          registered = rw handles w2.handled;
          sliceable = v.sliceable;
          few = v.few;
        },
      )
    where
      some-injective :
          {x y : List Message × SparseTable Val × AppBlocker (SparseClient Val)}
          → some x ≡ some y
          → x.2 ≡ y.2
      some-injective e = ground arith

  -- What is sent up to the iteration `n`.
  abbrev pub sent_before : SparseTable Val → ℕ → List Message
  sent_before t g = gets manager t 0 (take (ahead t.speculation g) t.keys)

  gets_in_round :
      (t : SparseTable Val) (rest : List Message) (sliced : SlicedKvs) (n : ℕ)
      → t.get_count + t.speculation < length t.keys
      → sent_before (after t) (suc t.get_count) ++ gets_in rest
        ≡ sent_before (after t) (suc t.get_count + n)
      → sent_before t t.get_count
          ++ gets_in
              ((next_msgs manager t.get_count t ++ send (after t) true t.get_count sliced) ++ rest)
        ≡ sent_before t (t.get_count + suc n)
  gets_in_round t rest sliced n room later =
      let g = t.get_count in
      let next = next_msgs manager g t in
      let adds = send (after t) true g sliced in
      let unmoved : (k : ℕ) → sent_before (after t) k ≡ sent_before t k = λ k.
        gets-state manager t [] (asked manager t).num_reqs (suc g) (suc g) 0
          (take (ahead t.speculation k) t.keys) in
      let split : gets_in ((next ++ adds) ++ rest) ≡ gets_in next ++ gets_in rest =
        gets_in-append (next ++ adds) rest
        ∙ ap (λ l. l ++ gets_in rest)
            (gets_in-append next adds
              ∙ ap (λ l. gets_in next ++ l) (gets_in-send_adds (after t) g sliced)
              ∙ append-nil (gets_in next)) in
      ap (λ l. sent_before t g ++ l) split
      ∙ sym (append_assoc (sent_before t g) (gets_in next) (gets_in rest))
      ∙ ap (λ l. l ++ gets_in rest) (next_msgs_lem manager g t room ∙ sym (unmoved (suc g)))
      ∙ later
      ∙ unmoved (suc g + n)
      ∙ ap (sent_before t) {x = suc g + n} (omega arith)

  -- With a speculation, and while the keys last, rounds that are answered succeed, give the values of
  -- their iterations, one after the other, and leave the table ready; with the Gets that were sent
  -- before, theirs are those of the iterations up to `speculation` ahead, each sent once, in order.
  pub rounds-Served :
      (rs : List (Round Val)) (t : SparseTable Val) (b : AppBlocker (SparseClient Val))
      (all : List (List (KvPairs Val)))
      → Ready manager t b
      → 0 < t.speculation
      → t.get_count + length rs + t.speculation ≤ length t.keys
      → AllServed t.keys t.get_count rs all
      → (msgs : List Message) × (t' : SparseTable Val) × (b' : AppBlocker (SparseClient Val))
        × (rounds rs t b ≡ some (msgs, map concat_vals all, t', b'))
        × Ready manager t' b'
        × (t'.get_count ≡ t.get_count + length rs)
        × (sent_before t t.get_count ++ gets_in msgs ≡ sent_before t (t.get_count + length rs))
  rounds-Served [] t b [] v spec room s = (
    [],
    t,
    b,
    refl,
    v,
    omega arith,
    append-nil (sent_before t t.get_count) ∙ ap (sent_before t) {x = t.get_count} (omega arith),
  )
  rounds-Served [] t b (parts ∷ all) v spec room s = absurd s
  rounds-Served (r ∷ rs) t b [] v spec room s = absurd s
  rounds-Served (r ∷ rs) t b (parts ∷ all) v spec room s =
      let (b1, one, v1) = round-Served t b r parts v spec (omega (arith, room)) s.0 in
      let (msgs, t', b', more, v', reached, sent) =
        rounds-Served rs (after t) b1 all v1 spec (omega (arith, room)) s.1 in
      (
        (next_msgs manager t.get_count t ++ send (after t) true t.get_count s.0.add_parts) ++ msgs,
        t',
        b',
        rw (one, more) refl,
        v',
        omega (arith, reached),
        gets_in_round t msgs s.0.add_parts (length rs) (omega (arith, room)) sent,
      )
