-- ===== src/Tests/Fixtures.antt =====
-- Concrete values for what the model takes from elsewhere, and concrete messages.
use flexps.Base.{ℕ, ◌+◌, ◌-◌, refl, List, [], ◌∷◌, Option, none, some, take, drop, lower_bound}
use flexps.Message.{Chars, Flag, Meta, Message, Platform, Values}

abbrev pub blank : Meta
blank = record { sender = 0; recver = 0; model_id = 0; flag = Flag.exit; version = 0 }

-- A key is one character, and so is a value.
instance abbrev pub plain : Platform
plain = record {
  of_keys = λ keys. keys;
  as_keys = λ chars. chars;
  as_keys-of_keys = λ keys. refl;
  segment = λ xs b e. take (e - b) (drop b xs);
  segment_lem = λ xs b e _ _. refl;
  find_range = λ keys lower upper. (lower_bound keys lower, lower_bound keys upper);
  find_range_lem = λ keys lower upper _ _. refl;
  fresh_meta = blank;
}

instance abbrev pub numbers : Values ℕ
numbers = record {
  of_vals = λ vals. vals;
  as_vals = λ chars. chars;
  as_vals-of_vals = λ vals. refl;
  default = 0;
  plus = λ a b. a + b;
}

-- A message of the worker thread `tid` to the server thread 0, for the model 0.
abbrev pub message : Flag → ℕ → List Chars → Message
message flag tid body = record {
  meta = record { sender = tid; recver = 0; model_id = 0; flag = flag; version = 0 };
  body = body;
}

abbrev pub clock_of : ℕ → Message
clock_of tid = message Flag.clock tid []

-- A Get of the key 7.
abbrev pub get_of : ℕ → Message
get_of tid = message Flag.get tid ((7 ∷ []) ∷ [])

-- An Add of `v` to the key 7.
abbrev pub add_of : ℕ → ℕ → Message
add_of tid v = message Flag.add tid ((7 ∷ []) ∷ (v ∷ []) ∷ [])

abbrev pub value_of {ℓ} : {A : Type ℓ} → A → Option A → A
value_of d none = d
value_of d (some a) = a
