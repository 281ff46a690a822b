-- ===== src/Offload/Metadata.antt =====
-- s3.py: the metadata of the uploaded files against the result that refers to them.
use avtomatika_worker.Base.{
  ℕ, suc, String, ◌≡◌, some, List, [], ◌∷◌, ◌++◌, ◌⊎◌, inl, inr, string_eq,
}
use avtomatika_worker.Base.Dict
use avtomatika_worker.Base.Dict.{Dict}
use avtomatika_worker.Json.{
  Json, Items, Fields, null, bool, num, str, arr, obj, nil, cons, end, field,
}
use avtomatika_worker.Task.Call.{Try, ok, raise}
use avtomatika_worker.Task.Outcome.{FileMetadata}
use avtomatika_worker.Offload.{Io, Settings, Files, Action, give, then_do, ◌>>◌, key_of, index_of}
use avtomatika_worker.Offload.Leads.{Holds}

-- The texts of a value with their key paths, as `_process` makes them.
module _ {S : Type 0} (st : Settings) (f : Files S) where
  unfoldable mutual
    pub texts_at : String → Json → List (String × String)
    texts_at key_path null = []
    texts_at key_path (bool b) = []
    texts_at key_path (num n) = []
    texts_at key_path (str s) = (key_path, s) ∷ []
    texts_at key_path (arr vs) = texts_of_items key_path 0 vs
    texts_at key_path (obj fs) = texts_of_fields key_path fs

    pub texts_of_items : String → ℕ → Items → List (String × String)
    texts_of_items key_path i nil = []
    texts_of_items key_path i (cons v vs) =
        texts_at (index_of st f key_path i) v ++ texts_of_items key_path (suc i) vs

    pub texts_of_fields : String → Fields → List (String × String)
    texts_of_fields key_path end = []
    texts_of_fields key_path (field k v fs) =
        texts_at (key_of st f key_path k) v ++ texts_of_fields key_path fs

abbrev pub In : String × String → List (String × String) → Type 0
In p [] = ⊥
In p (q ∷ qs) = (p ≡ q) ⊎ In p qs

pub In-left : (p : String × String) (xs ys : List (String × String)) → In p xs → In p (xs ++ ys)
In-left p [] ys h = absurd h
In-left p (x ∷ xs) ys (inl e) = inl e
In-left p (x ∷ xs) ys (inr h) = inr (In-left p xs ys h)

pub In-right : (p : String × String) (xs ys : List (String × String)) → In p ys → In p (xs ++ ys)
In-right p [] ys h = h
In-right p (x ∷ xs) ys h = inr (In-right p xs ys h)

-- Every entry of the metadata is one of some pairs of a key path and an address.
unfoldable pub Covers : (String → String → Type 0) → Dict String FileMetadata → Type 0
Covers Q d = (k : String) (m : FileMetadata) → Dict.lookup k d ≡ some m → Q k m.uri

module _ {S : Type 0} where
  -- The entries that the action adds are among the texts of what it gives.
  pub record Tells {A : Type 0} (texts : A → List (String × String)) (x : Action S A) : Type 1 where
    pub all :
        (Q : String → String → Type 0) (io : Io S)
        → Covers Q io.metadata_map
        → Holds (λ a (o : Io S). Covers (λ k u. Q k u ⊎ In (k, u) (texts a)) o.metadata_map) (x io)

  pub give-Tells : {A : Type 0} (texts : A → List (String × String)) (a : A) → Tells texts (give a)
  unfolding give Covers
  give-Tells texts a = record { all = λ Q io c k m h. inl (c k m h) }

  mapped :
      {A B : Type 0} (ta : A → List (String × String)) (tb : B → List (String × String)) (j : A → B)
      (Q : String → String → Type 0) (r : Io S × Try A)
      → ((a : A) (p : String × String) → In p (ta a) → In p (tb (j a)))
      → Holds (λ a (o : Io S). Covers (λ k u. Q k u ⊎ In (k, u) (ta a)) o.metadata_map) r
      → Holds
          (λ b (o : Io S). Covers (λ k u. Q k u ⊎ In (k, u) (tb b)) o.metadata_map)
          (then_do (λ a. give (j a)) r)
  unfolding give Covers
  mapped ta tb j Q (o, ok a) into h =
      λ k m e. elim (h k m e) [ inl q ↦ inl q | inr i ↦ inr (into a (k, m.uri) i) ]
  mapped ta tb j Q (o, raise x) into h = tt

  pub map-Tells :
      {A B : Type 0} (ta : A → List (String × String)) (tb : B → List (String × String)) (j : A → B)
      (x : Action S A)
      → ((a : A) (p : String × String) → In p (ta a) → In p (tb (j a)))
      → Tells ta x
      → Tells tb (x >> (λ a. give (j a)))
  unfolding ◌>>◌
  map-Tells ta tb j x into t = record {
    all = λ Q io c. mapped ta tb j Q (x io) into (t.all Q io c);
  }

  module _ {A B C : Type 0} (ta : A → List (String × String)) (tb : B → List (String × String))
      (tc : C → List (String × String)) (j : A → B → C)
      (of_first : (a : A) (b : B) (p : String × String) → In p (ta a) → In p (tc (j a b)))
      (of_second : (a : A) (b : B) (p : String × String) → In p (tb b) → In p (tc (j a b))) where
    joined :
        (a : A) (Q : String → String → Type 0) (r : Io S × Try B)
        → Holds
            (λ b (o : Io S).
              Covers (λ k u. (Q k u ⊎ In (k, u) (ta a)) ⊎ In (k, u) (tb b)) o.metadata_map)
            r
        → Holds
            (λ c (o : Io S). Covers (λ k u. Q k u ⊎ In (k, u) (tc c)) o.metadata_map)
            (then_do (λ b. give (j a b)) r)
    unfolding give Covers
    joined a Q (o, ok b) h = λ k m e. elim (h k m e) [
      | inl (inl q) ↦ inl q
      | inl (inr i) ↦ inr (of_first a b (k, m.uri) i)
      | inr i ↦ inr (of_second a b (k, m.uri) i)
    ]
    joined a Q (o, raise x) h = tt

    second :
        (y : Action S B) (Q : String → String → Type 0) (r : Io S × Try A)
        → Tells tb y
        → Holds (λ a (o : Io S). Covers (λ k u. Q k u ⊎ In (k, u) (ta a)) o.metadata_map) r
        → Holds
            (λ c (o : Io S). Covers (λ k u. Q k u ⊎ In (k, u) (tc c)) o.metadata_map)
            (then_do (λ a. y >> (λ b. give (j a b))) r)
    unfolding ◌>>◌
    second y Q (o, ok a) t h = joined a Q (y o) (t.all (λ k u. Q k u ⊎ In (k, u) (ta a)) o h)
    second y Q (o, raise x) t h = tt

    pub pair-Tells :
        (x : Action S A) (y : Action S B)
        → Tells ta x
        → Tells tb y
        → Tells tc (x >> (λ a. y >> (λ b. give (j a b))))
    unfolding ◌>>◌
    pair-Tells x y t u = record { all = λ Q io c. second y Q (x io) u (t.all Q io c) }
