-- ===== src/Gateway/Mock.antt =====
-- A Redis that holds texts in a list of keys, values and times to live, never fails, and in which no
-- time passes, for the examples.
use mini_banking_app.Common.{
  ℕ, ◌+◌, refl, inr, String, Option, none, some, List, [], ◌∷◌, ◌===◌, if◌then◌else◌, arith,
}
use mini_banking_app.Common.Decimal.{to_string}
use mini_banking_app.Common.Exec.{Exec, returned}
use mini_banking_app.Gateway.Http.{Exception}
use mini_banking_app.Gateway.Redis.{Redis, count}

abbrev pub Entries : Type 0
Entries = List (String × Option String × Option ℕ)

abbrev pub find_entry : Entries → String → Option String
find_entry [] j = none
find_entry ((k, v, t) ∷ entries) j =
    let later = find_entry entries j in if k === j then v else later

abbrev pub find_left : Entries → String → Option ℕ
find_left [] j = none
find_left ((k, v, t) ∷ entries) j = let later = find_left entries j in if k === j then t else later

abbrev pub put : String → Option String → Option ℕ → Exec Entries Exception (Unit {0})
put k v t s = (returned tt, (k, v, t) ∷ s)

abbrev pub mock_redis : Redis
mock_redis = record {
  State = Entries;
  lookup = find_entry;
  left = find_left;
  get = λ k s. (returned (find_entry s k), s);
  set = λ k v. put k (some v) none;
  set_ex = λ k v t. put k (some v) (some t);
  del = λ k. put k none none;
  incr = λ k s. (
    returned (count (find_entry s k) + 1),
    (k, some (to_string (count (find_entry s k) + 1)), find_left s k) ∷ s,
  );
  expire = λ k t s. (returned tt, s);
  ttl = λ k s. (returned none, s);
  elapse = λ n s. s;
  get_lem = λ k s s' v h. ground arith;
  lookup-get = λ k j s. refl;
  lookup-set = λ k j v s s' h. ground arith;
  lookup-set_ex = λ k j v t s s' h. ground arith;
  left-set = λ k j v s s' h. ground arith;
  left-set_ex = λ k j v t s s' h. ground arith;
  lookup-del = λ k j s s' h. ground arith;
  incr_lem = λ k n s s' h. ground arith;
  lookup-incr = λ k j n s s' h. ground arith;
  lookup-expire = λ k j t s pos. refl;
  lookup-ttl = λ k j s. refl;
  lookup-elapse = λ n k s. inr refl;
  lookup-elapse_kept = λ n k s h. refl;
}
