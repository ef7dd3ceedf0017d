-- ===== src/Discovery/Topics/Sets.antt =====
-- The two set operations on topics, by membership.
use mqtt_raspberry_controlle.Base.{
  not, ◌&&◌, ◌||◌, List, [], ◌∷◌, ◌++◌, Bytes, same_iff, contains, if◌then◌else◌,
  contains-sort_strings, ◌≡◌, refl, arith, ◌∙◌,
}
use mqtt_raspberry_controlle.Discovery.Topics.{
  collect_set, union_topics, keep_missing, difference_topics,
}

pub contains-append :
    (t : Bytes) (xs ys : List Bytes) → contains (xs ++ ys) t ≡ (contains xs t || contains ys t)
unfolding contains
contains-append t [] ys = refl
contains-append t (x ∷ xs) ys = ground (arith, contains-append t xs ys)

contains-collect_set :
    (t : Bytes) (set xs : List Bytes)
    → contains (collect_set set xs) t ≡ (contains set t || contains xs t)
unfolding contains collect_set
contains-collect_set t set [] = ground arith
contains-collect_set t set (x ∷ xs) =
    ground
      (arith, contains-collect_set t (if contains set x then set else x ∷ set) xs, same_iff x t)

-- A topic is in the union exactly if it is in one of the two lists.
pub contains-union_topics :
    (t : Bytes) (first second : List Bytes)
    → contains (union_topics first second) t ≡ (contains first t || contains second t)
unfolding union_topics contains
contains-union_topics t first second =
    contains-sort_strings t _
    ∙ contains-collect_set t [] (first ++ second)
    ∙ contains-append t first second

contains-keep_missing :
    (t : Bytes) (desired xs : List Bytes)
    → contains (keep_missing desired xs) t ≡ (contains xs t && not (contains desired t))
unfolding contains keep_missing
contains-keep_missing t desired [] = refl
contains-keep_missing t desired (x ∷ xs) =
    ground (arith, contains-keep_missing t desired xs, same_iff x t)

-- A topic is stale exactly if it is in the previous list and not among the desired ones.
pub contains-difference_topics :
    (t : Bytes) (previous desired : List Bytes)
    → contains (difference_topics previous desired) t
      ≡ (contains previous t && not (contains desired t))
unfolding difference_topics
contains-difference_topics t previous desired =
    contains-sort_strings t _ ∙ contains-keep_missing t desired previous
