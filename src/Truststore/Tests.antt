-- ===== src/Truststore/Tests.antt =====
-- internal/rest/resources/truststore.go: the handlers at concrete values.
use microcluster.Prelude.{
  ◌≡◌, refl, codes, true, false, none, some, [], ◌∷◌, lookup, insert, remove, has_key, str_eq,
  cut_prefix,
}
use microcluster.Trust.{Remote, Remotes, add, add_one, cut_yaml}
use microcluster.Trust.Replace.{replace}
use microcluster.Trust.Samples.{test_yaml, empty_dir}
use microcluster.Truststore.{Env, cluster, all_answer, tell_others, trust_post, trust_delete}
use microcluster.Truststore.Entries.{trust_delete-post}

abbrev a : Remote
a = record { name = codes "a"; address = codes "1"; certificate = some (codes "A") }

abbrev b : Remote
b = record { name = codes "b"; address = codes "2"; certificate = some (codes "B") }

abbrev env : Env
env = record {
  own_address = codes "1";
  request = some b;
  path_name = some (codes "b");
  is_notification = false;
  members = some (codes "1" ∷ []);
  new_client = λ host. true;
  answers = λ host. true;
}

-- A store with `a`, with `b` added, and with `b` deleted again.
abbrev one : Remotes
one = (add test_yaml (record { dir = empty_dir; content = [] }) (a ∷ [])).0

abbrev two : Remotes
two = (trust_post test_yaml env one).0

abbrev back : Remotes
back = (trust_delete test_yaml env two).0

posted : trust_post test_yaml env one ≡ (two, none)
unfolding trust_post tell_others cluster all_answer add add_one has_key lookup insert str_eq
posted = refl

deleted : trust_delete test_yaml env two ≡ (back, none)
unfolding trust_post trust_delete tell_others cluster all_answer add add_one has_key lookup insert
    remove str_eq replace cut_yaml cut_prefix
deleted = refl

trust_delete-post_example : lookup (codes "a") back.content ≡ lookup (codes "a") one.content
unfolding add add_one has_key lookup insert str_eq
trust_delete-post_example =
    trust_delete-post test_yaml env env one two back b (codes "a") (refl, refl, tt) refl refl refl
      posted deleted
