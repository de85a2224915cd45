-- ===== src/Io/Assigner/Session.antt =====
-- io/hdfs_assigner.cpp: the requests for the blocks of one url, up to the one with which the url is
-- forgotten. `none` among the answers is the empty answer.
use flexps.Base.{
  ℕ, suc, ◌+◌, ◌<◌, ◌≡◌, refl, sym, ap, subst, ◌∙◌, List, [], ◌∷◌, ◌++◌, Option, none, some, Bool,
  true, false, ◌==◌, ◌&&◌, not, if◌then◌else◌, ◌>>=◌, arith, Bool-cases, inl, inr, ◌⊎◌, find_or,
  contains,
}
use flexps.Io.Assigner.{
  BlkDesc, Locality, Hdfs, HdfsBlockAssigner, select_block, touch, browse_new, answer,
  handle_block_request,
}
use flexps.Io.Assigner.Blocks.{Begins, select_block_cases}
use flexps.Io.Assigner.Erase.{Stored, holds, touch-Stored}
use flexps.Io.Assigner.Requests.{given, Taken, Taken-none, Taken-some, Taken-nothing, Taken-start}
use flexps.Io.Assigner.State.{
  contains-erase, at_url-set_url, stock, refusals, Browsed, left, stock-left, left-Browsed, counted,
  forgotten, row-forgotten, stock-forgotten,
}

-- The number of empty answers.
abbrev pub rejected : List (Option (ℕ × ℕ)) → ℕ
rejected [] = 0
rejected (none ∷ answers) = suc (rejected answers)
rejected (some block ∷ answers) = rejected answers

if-not {ℓ} : {A : Type ℓ} (b : Bool) (x y : A) → b ≡ true → (if not b then x else y) ≡ y
if-not b x y e = rw e refl

module _ (hdfs : Hdfs) (begin : List BlkDesc → Option BlkDesc) (id url num_threads : ℕ) where
  -- The requests of some hosts, one after the other, as their handler answers them.
  abbrev pub handle_requests :
      List ℕ → HdfsBlockAssigner → Option (List (Option (ℕ × ℕ)) × HdfsBlockAssigner)
  handle_requests [] a = some ([], a)
  handle_requests (host ∷ hosts) a = do
    (block, a') ← handle_block_request hdfs begin url host num_threads id a
    (answers, last) ← handle_requests hosts a'
    some (block ∷ answers, last)

  -- The requests in their order, up to the one with which the url is forgotten, or all of them. Until
  -- then each block is handed out at most once, and the url is forgotten when as many requests were
  -- refused as there are threads, and all of its blocks have been handed out.
  pub record Session (hosts : List ℕ) (a : HdfsBlockAssigner) : Type 0 where
    pub served : List ℕ
    pub later : List ℕ
    pub answers : List (Option (ℕ × ℕ))
    pub last : HdfsBlockAssigner
    pub split : hosts ≡ served ++ later
    pub ran : handle_requests served a ≡ some (answers, last)
    pub taken : Taken (stock id url a) answers (stock id url last)
    pub outcome :
        ((later ≡ []) × (refusals id url a + rejected answers < num_threads) × Browsed id url last)
        ⊎ ((refusals id url a + rejected answers ≡ num_threads)
            × (contains url (find_or id [] last.files_locality) ≡ false)
            × ((h f o : ℕ) → holds h f o (stock id url a) ≡ true → given f o answers ≡ true))

  -- The state in which a request is answered.
  abbrev asked : HdfsBlockAssigner → HdfsBlockAssigner
  asked a = record a { num_workers_alive = num_threads }

  browse_new-Browsed :
      (a : HdfsBlockAssigner)
      → Browsed id url a
      → browse_new hdfs begin id url (asked a) ≡ some (asked a)
  unfolding browse_new
  browse_new-Browsed a v = ground (arith, v.has_id, v.has_url)

  -- A request is answered with a block, is refused, or is the last one to be refused.
  request-some :
      (host f o : ℕ) (locality : Locality) (a : HdfsBlockAssigner)
      → Browsed id url a
      → select_block begin host (stock id url a) ≡ some (some (f, o), locality)
      → handle_block_request hdfs begin url host num_threads id a
        ≡ some (some (f, o), left id url num_threads locality a)
  unfolding handle_block_request answer
  request-some host f o locality a v e =
      if-not a.connected _ _ v.connected ∙ rw (browse_new-Browsed a v, e) refl

  request-none :
      (host : ℕ) (locality : Locality) (a : HdfsBlockAssigner)
      → Browsed id url a
      → select_block begin host (stock id url a) ≡ some (none, locality)
      → handle_block_request hdfs begin url host num_threads id a
        ≡ some (
          none,
          if (refusals id url a + 1) == num_threads
              then forgotten id url (counted id url (left id url num_threads locality a))
              else counted id url (left id url num_threads locality a),
        )
  unfolding handle_block_request answer
  request-none host locality a v e =
      if-not a.connected _ _ v.connected ∙ rw (browse_new-Browsed a v, e) refl

  -- One more request before those of a session.
  after_some :
      (host f o h : ℕ) (hosts : List ℕ) (locality : Locality) (a : HdfsBlockAssigner)
      → handle_block_request hdfs begin url host num_threads id a
        ≡ some (some (f, o), left id url num_threads locality a)
      → holds h f o (stock id url a) ≡ true
      → ((h' f' o' : ℕ)
          → holds h' f' o' locality
            ≡ (if (f' == f) && (o' == o) then false else holds h' f' o' (stock id url a)))
      → Session hosts (left id url num_threads locality a)
      → Session (host ∷ hosts) a
  after_some host f o h hosts locality a ran there gone s =
      let taken : Taken (stock id url a) (some (f, o) ∷ s.answers) (stock id url s.last) =
        Taken-some f o h (stock id url a) locality (stock id url s.last) s.answers there gone (
          subst (λ l. Taken l s.answers (stock id url s.last))
            (stock-left id url num_threads locality a) s.taken) in
      record {
        served = host ∷ s.served;
        later = s.later;
        answers = some (f, o) ∷ s.answers;
        last = s.last;
        split = ap (λ l. host ∷ l) s.split;
        ran = rw (ran, s.ran) refl;
        taken = taken;
        outcome = elim s.outcome [
          | inl go ↦ inl go
          | inr (full, erased, all) ↦ inr (
            full,
            erased,
            λ h' f' o' held. ground (
              arith,
              gone h' f' o',
              all h' f' o',
              ap (holds h' f' o') (stock-left id url num_threads locality a),
            ),
          )
        ];
      }

  after_none :
      (host : ℕ) (hosts : List ℕ) (a : HdfsBlockAssigner)
      → handle_block_request hdfs begin url host num_threads id a
        ≡ some (none, counted id url (left id url num_threads (touch host (stock id url a)) a))
      → ((h f o : ℕ) → holds h f o (stock id url a) ≡ false)
      → Session hosts (counted id url (left id url num_threads (touch host (stock id url a)) a))
      → Session (host ∷ hosts) a
  after_none host hosts a ran empty s =
      let next = left id url num_threads (touch host (stock id url a)) a in
      let more : refusals id url (counted id url next) ≡ refusals id url a + 1 =
        at_url-set_url id url 0 (refusals id url a + 1) a.finish_count in
      record {
        served = host ∷ s.served;
        later = s.later;
        answers = none ∷ s.answers;
        last = s.last;
        split = ap (λ l. host ∷ l) s.split;
        ran = rw (ran, s.ran) refl;
        taken = Taken-none host (stock id url a) (stock id url s.last) s.answers (
            subst (λ l. Taken l s.answers (stock id url s.last))
              (stock-left id url num_threads (touch host (stock id url a)) a) s.taken);
        outcome = elim s.outcome [
          | inl (ended, few, v) ↦ inl (ended, omega (arith, few, more), v)
          | inr (full, erased, all) ↦ inr (
            omega (arith, full, more),
            erased,
            λ h f o held. absurd (ground (arith, held, empty h f o)),
          )
        ];
      }

  after_last :
      (host : ℕ) (hosts : List ℕ) (a : HdfsBlockAssigner)
      → handle_block_request hdfs begin url host num_threads id a
        ≡ some (
          none,
          forgotten id url
              (counted id url (left id url num_threads (touch host (stock id url a)) a)),
        )
      → refusals id url a + 1 ≡ num_threads
      → ((h f o : ℕ) → holds h f o (stock id url a) ≡ false)
      → Session (host ∷ hosts) a
  after_last host hosts a ran full empty =
      let next = counted id url (left id url num_threads (touch host (stock id url a)) a) in
      record {
        served = host ∷ [];
        later = hosts;
        answers = none ∷ [];
        last = forgotten id url next;
        split = refl;
        ran = rw ran refl;
        taken =
            Taken-nothing (stock id url a) (stock id url (forgotten id url next)) empty
              (λ h f o. ap (holds h f o) (stock-forgotten id url next))
              (subst Stored (sym (stock-forgotten id url next))
                (record { ascending = tt; no_repeat = λ h. tt }));
        outcome = inr (
          full,
          ap (contains url) (row-forgotten id url next)
              ∙ contains-erase url (find_or id [] next.files_locality),
          λ h f o held. absurd (ground (arith, held, empty h f o)),
        );
      }

  -- If a url has been browsed, and fewer requests for it were refused than there are threads, then the
  -- requests of any hosts, up to the one with which the url is forgotten, succeed; they hand out each
  -- block at most once, and only blocks that some host held, and each host then holds what it held
  -- before, but for the blocks handed out. Either these are all the requests, fewer than the threads
  -- were refused, and the url is still browsed; or as many were refused as there are threads, the url
  -- is forgotten, and every block that a host held has been handed out.
  pub handle_requests-Session :
      (hosts : List ℕ) (a : HdfsBlockAssigner)
      → Begins begin
      → Browsed id url a
      → refusals id url a < num_threads
      → Session hosts a
  handle_requests-Session [] a begins v few = record {
    served = [];
    later = [];
    answers = [];
    last = a;
    split = refl;
    ran = refl;
    taken = Taken-start (stock id url a) v.stored;
    outcome = inl (refl, omega (arith, few), v);
  }
  handle_requests-Session (host ∷ hosts) a begins v few =
      elim (select_block_cases begin host (stock id url a) begins v.stored) [
        | inr (f, o, h, after, chosen, there, own, gone, w) ↦
            after_some host f o h hosts after a (request-some host f o after a v chosen) there gone
              (handle_requests-Session hosts (left id url num_threads after a) begins
                (left-Browsed id url num_threads after a v w) few)
        | inl (chosen, empty) ↦
            let t = touch host (stock id url a) in
            let ran = request-none host t a v chosen in
            let more : refusals id url (counted id url (left id url num_threads t a))
                ≡ refusals id url a + 1 =
              at_url-set_url id url 0 (refusals id url a + 1) a.finish_count in
            elim (Bool-cases ((refusals id url a + 1) == num_threads)) [
              | inl full ↦ after_last host hosts a (rw full at ran) (ground arith) empty
              | inr room ↦
                  let b =
                    left-Browsed id url num_threads t a v
                      (touch-Stored host (stock id url a) v.stored) in
                  let w : Browsed id url (counted id url (left id url num_threads t a)) = record {
                    connected = b.connected;
                    has_id = b.has_id;
                    has_url = b.has_url;
                    stored = b.stored;
                  } in
                  after_none host hosts a (rw room at ran) empty (
                    handle_requests-Session hosts (counted id url (left id url num_threads t a))
                      begins w (ground (arith, few, more)))
            ]
      ]
