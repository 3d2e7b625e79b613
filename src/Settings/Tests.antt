-- ===== src/Settings/Tests.antt =====
-- The settings of concrete environments.
use mini_dynamo.Prelude.{
  pos, ℕ, ◌-◌, ◌≡◌, refl, Option, none, some, [], ◌∷◌, Text, codes, ite, Text_discrete, true, false,
  All, lower, filter,
}
use mini_dynamo.Sse.{strip, strip_left, strip_right, is_space}
use mini_dynamo.Settings.{
  Numbers, get_list, get_bool, get_int, is_one_of, get_settings, items, split_on, begin_with,
}
use mini_dynamo.Settings.Lists.{join, IsItem, get_list-join}

-- Numbers of one digit; a float of two parts is its digits.
abbrev demo_numbers : Numbers ℕ
demo_numbers = record {
  to_int = λ s. elim s [ [] ↦ none | c ∷ rest ↦ some (pos (c - b'0')) ];
  to_float = λ s. elim s [ [] ↦ none | c ∷ rest ↦ some (c - b'0') ];
  decimal = λ m k. m;
}

abbrev two_urls : Text → Option Text
two_urls key = ite (Text_discrete key (codes "DECODE_URLS")) (some (codes "u0,u1")) none

the_urls : two_urls (codes "DECODE_URLS") ≡ some (join (codes "u0") (codes "u1" ∷ []))
unfolding join Text_discrete
the_urls = refl

are_items : All IsItem (codes "u0" ∷ codes "u1" ∷ [])
unfolding strip strip_left strip_right is_space
are_items = ((refl, refl, (refl, (refl, tt))), ((refl, refl, (refl, (refl, tt))), tt))

get_list-join_example :
    get_list demo_numbers two_urls (codes "DECODE_URLS") [] ≡ codes "u0" ∷ codes "u1" ∷ []
get_list-join_example =
    get_list-join demo_numbers two_urls (codes "DECODE_URLS") (codes "u0") (codes "u1" ∷ []) []
      the_urls are_items

-- Spaces and empty items are dropped.
loose_list : items demo_numbers two_urls (codes " u0, ,u1,") ≡ codes "u0" ∷ codes "u1" ∷ []
unfolding items filter split_on begin_with strip strip_left strip_right is_space
loose_list = refl

yes_is_true :
    get_bool demo_numbers (λ key. some (codes " YES ")) (codes "OTEL_ENABLED") false ≡ true
unfolding get_bool is_one_of lower strip strip_left strip_right is_space Text_discrete
yes_is_true = refl

default_batch : (get_settings demo_numbers two_urls).max_batch_size ≡ pos 16
unfolding get_settings get_int Text_discrete
default_batch = refl
