-- ===== src/Gateway/Redis.antt =====
-- Redis, which is not the program's: its commands with the behaviour that its manual states. A
-- command returns or throws (a lost connection). `lookup` is what a GET would find at the moment, and
-- `left` the time to live of a key, in seconds, or `none` for a key without one.
use mini_banking_app.Common.{
  ℕ, ◌+◌, ◌<◌, String, ◌≡◌, ◌⊎◌, Option, none, some, ◌===◌, if◌then◌else◌, get_or,
}
use mini_banking_app.Common.Decimal.{parse_int, to_string}
use mini_banking_app.Common.Exec.{Exec, returned}
use mini_banking_app.Gateway.Http.{Exception}

-- The number in a counter: 0 where there is none.
abbrev pub count : Option String → ℕ
count none = 0
count (some v) = get_or (parse_int v) 0

-- That many seconds do not use up a time to live.
abbrev pub Lasts : ℕ → Option ℕ → Type 0
Lasts n none = Unit
Lasts n (some t) = n < t

pub record Redis : Type 1 where
  pub State : Type 0
  pub lookup : State → String → Option String
  pub left : State → String → Option ℕ
  pub get : String → Exec State Exception (Option String)
  pub set : String → String → Exec State Exception (Unit {0})
  pub set_ex : String → String → ℕ → Exec State Exception (Unit {0})
  pub del : String → Exec State Exception (Unit {0})
  pub incr : String → Exec State Exception ℕ
  pub expire : String → ℕ → Exec State Exception (Unit {0})
  pub ttl : String → Exec State Exception (Option ℕ)
  pub elapse : ℕ → State → State
  -- A read finds what is there and changes nothing.
  pub get_lem :
      (k : String) (s s' : State) (v : Option String) → get k s ≡ (returned v, s') → v ≡ lookup s k
  pub lookup-get : (k j : String) (s : State) → lookup (get k s).1 j ≡ lookup s j
  pub lookup-set :
      (k j v : String) (s s' : State)
      → set k v s ≡ (returned tt, s')
      → lookup s' j ≡ (if k === j then some v else lookup s j)
  pub lookup-set_ex :
      (k j v : String) (t : ℕ) (s s' : State)
      → set_ex k v t s ≡ (returned tt, s')
      → lookup s' j ≡ (if k === j then some v else lookup s j)
  -- SET without a time to live takes away the one that was there.
  pub left-set :
      (k j v : String) (s s' : State)
      → set k v s ≡ (returned tt, s')
      → left s' j ≡ (if k === j then none else left s j)
  pub left-set_ex :
      (k j v : String) (t : ℕ) (s s' : State)
      → set_ex k v t s ≡ (returned tt, s')
      → left s' j ≡ (if k === j then some t else left s j)
  pub lookup-del :
      (k j : String) (s s' : State)
      → del k s ≡ (returned tt, s')
      → lookup s' j ≡ (if k === j then none else lookup s j)
  -- INCR adds one, to 0 where the key is missing, and stores the decimal.
  pub incr_lem :
      (k : String) (n : ℕ) (s s' : State) → incr k s ≡ (returned n, s') → n ≡ count (lookup s k) + 1
  pub lookup-incr :
      (k j : String) (n : ℕ) (s s' : State)
      → incr k s ≡ (returned n, s')
      → lookup s' j ≡ (if k === j then some (to_string n) else lookup s j)
  -- A positive time to live, and asking for it, leave the values.
  pub lookup-expire :
      (k j : String) (t : ℕ) (s : State) → 0 < t → lookup (expire k t s).1 j ≡ lookup s j
  pub lookup-ttl : (k j : String) (s : State) → lookup (ttl k s).1 j ≡ lookup s j
  -- As time passes a key is kept or expires, and it is kept while its time to live lasts.
  pub lookup-elapse :
      (n : ℕ) (k : String) (s : State)
      → (lookup (elapse n s) k ≡ none) ⊎ (lookup (elapse n s) k ≡ lookup s k)
  pub lookup-elapse_kept :
      (n : ℕ) (k : String) (s : State) → Lasts n (left s k) → lookup (elapse n s) k ≡ lookup s k
