-- ===== src/Store/Mysql/Tests.antt =====
-- The theorems on `MySQLStore` with a server that is its tables, takes ASCII only, ignores case, and
-- loses a number when it refuses a row.
use mathlib.Core.List.Perm
use lurkspire.Prelude.{
  ℕ, ◌+◌, ◌≡◌, refl, sym, ap, subst, List, [], ◌∷◌, Option, none, some, Bool, true, ◌&&◌, ltb,
  IsU32, arith, length, map, find, if◌then◌else◌, leb, text_beq, text_beq_iff, text_key, nat_key,
  lookup, insert,
}
use lurkspire.Store.Friends.{pair_key}
use lurkspire.Store.Users.{User, Returned, returned, failed, new_mem_store}
use lurkspire.Store.Users.Catalogue.{Text}
use lurkspire.Store.Interface.{mem_store}
use lurkspire.Store.Interface.Run.{
  StoreCall, creates_user, gets_user_by_account, gets_user_by_nickname, gets_user_by_id, sets_equip,
  lists_equipments, gets_equipment, invites_friend, accepts_friend, rejects_friend,
  asks_pending_ids, asks_friend_ids, store_call, store_answers, AreSameAnswers,
}
use lurkspire.Store.Mysql.{
  Statement, inserts_user, updates_equip, inserts_friend, updates_friend, deletes_friend, SqlError,
  other_error, Database, get_user_by_account, get_user_by_nickname, get_user_by_id, insert_user,
  create_user, mysql_store,
}
use lurkspire.Store.Mysql.Meaning.{
  Charset, IsCharset, Tables, first_row, select_ids, enabled_of, equipment_of, all_rows,
  run_statement, IsAnswer, IsKept, is_meant, IsDatabase,
}
use lurkspire.Store.Mysql.Created.{IsStorable, IsNumbered, created_found}
use lurkspire.Store.Mysql.Same.{seeded}
use lurkspire.Store.Mysql.Agrees.{IsPlain, AreCommon}
use lurkspire.Store.Mysql.Runs.{mysql_store-agrees}
use lurkspire.Store.Users as U
use lurkspire.Store.Friends as F

abbrev lower : ℕ → ℕ
lower x = if leb 65 x then (if leb x 90 then x + 32 else x) else x

abbrev is_ascii : Text → Bool
is_ascii [] = true
is_ascii (x ∷ xs) = ltb x 128 && is_ascii xs

abbrev no_case : Charset
no_case = record {
  encodes = is_ascii;
  same = λ a b. text_beq (map lower a) (map lower b);
  fits = λ n t. leb (length t) n;
}

no_case-IsCharset : IsCharset no_case
no_case-IsCharset = record {
  same_refl = λ t e. (text_beq_iff (map lower t) (map lower t)).1 refl;
  fits_short = λ n t e h. ground (arith, h);
}

abbrev carry_out : Tables → Option Tables → Returned SqlError ℕ × Tables
carry_out t none = (failed other_error, record t { last_id = t.last_id + 1 })
carry_out t (some t') = (returned t'.last_id, t')

-- A server whose state is its tables.
abbrev pub toy_db : Database Tables
toy_db = record {
  exec = λ s t. carry_out t (run_statement no_case s t);
  user_row = λ q t. first_row (find (is_meant no_case q) t.users);
  equipment_row = λ id t. first_row (equipment_of id t.equipments);
  equipment_rows = λ t. all_rows (enabled_of t.equipments);
  id_rows = λ q t. all_rows (select_ids q t.friends);
}

says : (s : Statement) (t : Tables) → IsAnswer s t.last_id t
says (inserts_user account hash nickname) t = refl
says (updates_equip equip id) t = tt
says (inserts_friend a b) t = tt
says (updates_friend a b) t = tt
says (deletes_friend a b) t = tt

toy_db-IsDatabase : IsDatabase toy_db no_case (λ t. t)
toy_db-IsDatabase = record {
  done = λ s d t clear e.
      (t.last_id, ap (λ o. (carry_out d o).0) e, ap (λ o. (carry_out d o).1) e, says s t);
  refused = λ s d clear e. (
    ap (λ o. (carry_out d o).0) e,
    subst (λ t. IsKept d t) (sym (ap (λ o. (carry_out d o).1) e))
        record { users = refl; friends = refl; equipments = refl; last_id = omega arith },
  );
  user_row = λ q d clear. refl;
  equipment_row = λ id d. refl;
  equipment_rows = λ d. refl;
  id_rows = λ q d. (select_ids q d.friends, refl, Perm.refl (select_ids q d.friends));
}

abbrev pub empty_tables : Tables
empty_tables = record { last_id = 0; users = []; friends = []; equipments = seeded }

abbrev named : ℕ → ℕ → User
named account nickname = record {
  id = 0;
  account = account ∷ [];
  password_hash = [];
  nickname = nickname ∷ [];
  equip_id = 0;
}

named-IsStorable :
    (account nickname : ℕ)
    → is_ascii (account ∷ []) ≡ true
    → is_ascii (nickname ∷ []) ≡ true
    → IsStorable no_case (named account nickname)
named-IsStorable account nickname a n = record {
  account = a;
  hash = refl;
  nickname = n;
  account_length = omega arith;
  hash_length = omega arith;
  nickname_length = omega arith;
}

created_found_example :
    let u = named 97 120 in
    let after = (create_user toy_db u empty_tables).1 in
    (get_user_by_account toy_db (97 ∷ []) after ≡ returned (record u { id = 1 }))
    × (get_user_by_nickname toy_db (120 ∷ []) after ≡ returned (record u { id = 1 }))
    × (get_user_by_id toy_db 1 after ≡ returned (record u { id = 1 }))
    × IsU32 1
    × IsNumbered after
unfolding create_user get_user_by_account get_user_by_nickname insert_user run_statement
created_found_example =
    created_found toy_db no_case no_case-IsCharset (λ t. t) toy_db-IsDatabase (named 97 120) 1
      empty_tables (create_user toy_db (named 97 120) empty_tables).1 tt
      (named-IsStorable 97 120 refl refl) refl refl

-- ASCII without a capital letter.
abbrev IsLower : Text → Type 0
IsLower t = (map lower t ≡ t) × (is_ascii t ≡ true)

IsLower-IsPlain : IsPlain no_case (λ t. IsLower t)
IsLower-IsPlain = record { same = λ a b p q. rw (p.0, q.0) refl; encoded = λ t p. p.1 }

-- Two users, one refused for its account and one for its nickname; an equipment; a friendship, and a
-- request that is rejected.
abbrev both_run : List StoreCall
both_run =
    creates_user (named 97 120)
    ∷ creates_user (named 97 121)
    ∷ creates_user (named 98 120)
    ∷ creates_user (named 98 121)
    ∷ gets_user_by_nickname (121 ∷ [])
    ∷ sets_equip 2 4
    ∷ gets_user_by_id 2
    ∷ gets_user_by_account (99 ∷ [])
    ∷ invites_friend 1 2
    ∷ asks_pending_ids 2
    ∷ accepts_friend 2 1
    ∷ asks_friend_ids 1
    ∷ invites_friend 3 1
    ∷ rejects_friend 1 3
    ∷ asks_pending_ids 1
    ∷ lists_equipments
    ∷ gets_equipment 9
    ∷ []

both_run-AreCommon : AreCommon no_case IsLower both_run new_mem_store
unfolding store_call U.create_user U.set_equip U.get_user_by_id F.invite_friend F.accept_friend
    F.reject_friend lookup insert
both_run-AreCommon = (
  (((refl, refl), (refl, refl)), refl, named-IsStorable 97 120 refl refl),
  (
    (((refl, refl), (refl, refl)), refl, named-IsStorable 97 121 refl refl),
    (
      (((refl, refl), (refl, refl)), refl, named-IsStorable 98 120 refl refl),
      (
        (((refl, refl), (refl, refl)), refl, named-IsStorable 98 121 refl refl),
        (
          (refl, refl),
          (
            (omega arith, (record (named 98 121) { id = 2 }, refl)),
            (
              tt,
              (
                (refl, refl),
                (
                  (omega arith, omega arith),
                  (tt, (tt, (tt, ((omega arith, omega arith), (refl, (tt, (tt, (tt, tt)))))))),
                ),
              ),
            ),
          ),
        ),
      ),
    ),
  ),
)

mysql_store-agrees_example :
    AreSameAnswers
      (store_answers mem_store both_run new_mem_store)
      (store_answers (mysql_store toy_db) both_run empty_tables)
mysql_store-agrees_example =
    mysql_store-agrees toy_db no_case no_case-IsCharset (λ t. t) toy_db-IsDatabase (λ t. IsLower t)
      IsLower-IsPlain empty_tables refl both_run (omega arith) both_run-AreCommon
