-- ===== src/Storage/Driver.antt =====
-- github.com/wzshiming/sss, of which pkg/cache uses the operations below: a store of contents by path.
-- Each operation may fail, and a write that is not committed changes nothing.
use open_cidn.Base.{
  some_inj, ◌≡◌, subst, if◌then◌else◌, Bytes, str_eq, Option, none, some, List, text_eq,
}
use open_cidn.Maps.{get_key, set_key, delete_key, get_key-set_key, get_key-delete_key}

pub record Driver : Type 1 where
  pub State : Type 0
  pub read : Bytes → State → Option Bytes
  pub put_content : Bytes → Bytes → State → Option State
  pub delete : Bytes → State → Option State
  pub read-put_content :
      (p q content : Bytes) (s s' : State)
      → put_content p content s ≡ some s'
      → read q s' ≡ (if str_eq p q then some content else read q s)
  pub read-delete :
      (p q : Bytes) (s s' : State)
      → delete p s ≡ some s'
      → read q s' ≡ (if str_eq p q then none else read q s)

-- An association list is one that never fails.
abbrev pub list_driver : Driver
list_driver = record {
  State = List (Bytes × Bytes);
  read = get_key text_eq;
  put_content = λ p content s. some (set_key text_eq p content s);
  delete = λ p s. some (delete_key text_eq p s);
  read-put_content = λ p q content s s' h.
      subst
        (λ (x : List (Bytes × Bytes)).
          get_key text_eq q x ≡ (if str_eq p q then some content else get_key text_eq q s))
        (some_inj h) (get_key-set_key text_eq p q content s);
  read-delete = λ p q s s' h.
      subst
        (λ (x : List (Bytes × Bytes)).
          get_key text_eq q x ≡ (if str_eq p q then none else get_key text_eq q s))
        (some_inj h) (get_key-delete_key text_eq p q s);
}
