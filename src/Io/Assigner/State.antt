-- ===== src/Io/Assigner/State.antt =====
-- io/hdfs_assigner.cpp: the blocks and the refusals of one url, in the dictionaries of all ids.
use flexps.Base.{
  ℕ, ◌+◌, ◌≡◌, sym, ap, subst, ◌∙◌, [], true, false, arith, Dict, find_or, contains, put, erase,
  find-put, find-erase,
}
use flexps.Io.Assigner.{Locality, HdfsBlockAssigner, at_url, set_url}
use flexps.Io.Assigner.Erase.{Stored}

module _ {ℓ} {V : Type ℓ} where
  pub find_or-put : (k : ℕ) (d v : V) (m : Dict V) → find_or k d (put k v m) ≡ v
  find_or-put k d v m = ground (arith, find-put k k v m)

  pub contains-put : (k : ℕ) (v : V) (m : Dict V) → contains k (put k v m) ≡ true
  contains-put k v m = ground (arith, find-put k k v m)

  pub contains-erase : (k : ℕ) (m : Dict V) → contains k (erase k m) ≡ false
  contains-erase k m = ground (arith, find-erase k k m)

  pub find_or-erase : (k : ℕ) (d : V) (m : Dict V) → find_or k d (erase k m) ≡ d
  find_or-erase k d m = ground (arith, find-erase k k m)

pub at_url-set_url {ℓ} :
    {V : Type ℓ} (id url : ℕ) (v w : V) (d : Dict (Dict V))
    → at_url id url v (set_url id url w d) ≡ w
at_url-set_url id url v w d =
    let row = put url w (find_or id [] d) in
    ap (find_or url v) (find_or-put id [] row d) ∙ find_or-put url v w (find_or id [] d)

-- What is left of the url's blocks, and how often a request for them was refused.
abbrev pub stock : ℕ → ℕ → HdfsBlockAssigner → Locality
stock id url a = at_url id url [] a.files_locality

abbrev pub refusals : ℕ → ℕ → HdfsBlockAssigner → ℕ
refusals id url a = at_url id url 0 a.finish_count

-- The url has been browsed for this id, and is not forgotten.
pub record Browsed (id url : ℕ) (a : HdfsBlockAssigner) : Type 0 where
  pub connected : a.connected ≡ true
  pub has_id : contains id a.files_locality ≡ true
  pub has_url : contains url (find_or id [] a.files_locality) ≡ true
  pub stored : Stored (stock id url a)

module _ (id url num_threads : ℕ) where
  -- The state with these blocks left.
  abbrev pub left : Locality → HdfsBlockAssigner → HdfsBlockAssigner
  left locality a = record a {
    num_workers_alive = num_threads;
    files_locality = set_url id url locality a.files_locality;
  }

  pub stock-left :
      (locality : Locality) (a : HdfsBlockAssigner) → stock id url (left locality a) ≡ locality
  stock-left locality a = at_url-set_url id url [] locality a.files_locality

  pub left-Browsed :
      (locality : Locality) (a : HdfsBlockAssigner)
      → Browsed id url a
      → Stored locality
      → Browsed id url (left locality a)
  left-Browsed locality a v w =
      let row = put url locality (find_or id [] a.files_locality) in
      record {
        connected = v.connected;
        has_id = contains-put id row a.files_locality;
        has_url =
            ap (contains url) (find_or-put id [] row a.files_locality)
            ∙ contains-put url locality (find_or id [] a.files_locality);
        stored = subst Stored (sym (stock-left locality a)) w;
      }

module _ (id url : ℕ) where
  -- The state after one more refusal.
  abbrev pub counted : HdfsBlockAssigner → HdfsBlockAssigner
  counted a = record a { finish_count = set_url id url (refusals id url a + 1) a.finish_count }

  -- The state without the url.
  abbrev pub forgotten : HdfsBlockAssigner → HdfsBlockAssigner
  forgotten a = record a {
    files_locality = put id (erase url (find_or id [] a.files_locality)) a.files_locality;
  }

  pub row-forgotten :
      (a : HdfsBlockAssigner)
      → find_or id [] (forgotten a).files_locality ≡ erase url (find_or id [] a.files_locality)
  row-forgotten a = find_or-put id [] (erase url (find_or id [] a.files_locality)) a.files_locality

  pub stock-forgotten : (a : HdfsBlockAssigner) → stock id url (forgotten a) ≡ []
  stock-forgotten a =
      ap (find_or url []) (row-forgotten a) ∙ find_or-erase url [] (find_or id [] a.files_locality)
