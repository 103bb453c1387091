-- ===== src/Accounts/Tests.antt =====
-- A small site, requests to it, and the theorems of this part at them.
use Prim.Native.Char.{code}
use constrainable.Base.{
  ℕ, ◌%◌, ◌≤◌, ◌≡◌, ◌≢◌, ◌↔◌, inl, refl, String, Bool, true, false, some, none, List, [], ◌∷◌,
  is_empty, str_length, decimal, Elem, All, ok, arith, if◌then◌else◌, split_first, to_lower_case,
  trim, includes,
}
use constrainable.Schema.{User, Role, is_admin}
use constrainable.Database.Users
use constrainable.Password.Hex.{IsBytes, from_hex, bytes_eq}
use constrainable.Password.{verify_password}
use constrainable.Registration.{normalize_email, is_email, is_disallowed_email, passes_whitelist}
use constrainable.Invites.{Auth}
use constrainable.Accounts.{Site, Crypto, Salts, users_of, log_as}
use constrainable.Accounts.SendCode.{Outside, accepted, send_code}
use constrainable.Accounts.Register.{RegisterRequest, Account, register, open_account}
use constrainable.Accounts.Login.{login}
use constrainable.Accounts.Passwords.{change_password}
use constrainable.Accounts.Admin.{delete_user, patch_user, absent, text}
use constrainable.Accounts.Gate.{IsRole, IsOpened, register-IsOpened}
use constrainable.Accounts.SignIn.{register-login, change_password-login}
use constrainable.Accounts.Mailed.{send_code-register}
use constrainable.Accounts.Admins.{IsRemoved, delete_user-keeps_caller, patch_user-last_admin}
use constrainable.Accounts.Unique.Calls.{
  AccountCall, registering, signing_in, changing_password, selecting_node, deleting, patching,
  HasUnique, run_account_calls, run_account_calls-IsUnique,
}
use constrainable.Samples.{server}

-- The bytes of the codes of a text.
abbrev bytes : String → List ℕ
bytes String.[] = []
bytes (String.◌∷◌ c s) = code c % 256 ∷ bytes s

bytes-IsBytes : (s : String) → IsBytes (bytes s)
bytes-IsBytes String.[] = tt
bytes-IsBytes (String.◌∷◌ c s) = (omega arith, bytes-IsBytes s)

-- Ciphers that are the texts themselves, and hashes that are their bytes.
abbrev crypto : Crypto
crypto = record {
  rsa_decrypt = λ c. if is_empty c then none else some c;
  argon2id = λ plain salt. bytes plain;
  bun_verify = λ plain stored. false;
  md5_base64 = λ s. s;
  encrypt = λ s. s;
}

abbrev salts : Salts
salts = record { password_salt = 1 ∷ 2 ∷ []; authmod_salt = "ab" }

abbrev nobody : Site
nobody = record {
  hub = record { server = server; registry = record { nodes = []; socket_to_node = [] } };
  codes = [];
  node_settings = [];
  latencies = [];
  registration = record {
    whitelist_enabled = false;
    whitelist = [];
    disallowed_patterns = "student" ∷ [];
  };
  announcement_pool = [];
}

abbrev root : User
root = record {
  id = 1;
  email = "root@x.org";
  password_hash = "0102:726f6f742121";
  role = Role.admin;
  node_id = none;
  authmod_salt = none;
  authmod_verifier = none;
  dashboard_notice = none;
  announcement = none;
  created_at = 0;
}

abbrev bob : User
bob = record root { id = 2; email = "bob@x.org"; role = Role.user }

abbrev two_users : Site
two_users = record nobody {
  hub = record nobody.hub {
    server = record server {
      db = record server.db { users = record { rows = root ∷ bob ∷ []; next_id = 3 } };
    };
  };
}

abbrev is_match : String → List String → Bool
is_match email patterns = false

abbrev request : RegisterRequest
request = record {
  email = " Ann@x.org";
  password = "secret";
  code = "123456";
  session = "s1";
  invite = "";
}

abbrev ann : Account
ann = record { id = 1; email = "ann@x.org"; role = Role.admin }

abbrev after_first : Site
after_first = (register is_match crypto salts 1000 request nobody).1

first : register is_match crypto salts 1000 request nobody ≡ (ok ann, after_first)
unfolding register is_email split_first normalize_email to_lower_case trim is_disallowed_email
    includes Users.find_by_email Users.is_empty open_account
first = refl

salt_some : ◌≢◌ {A = List ℕ} (1 ∷ 2 ∷ []) []
salt_some e = cc

register-IsOpened_example :
    (password : String) × (crypto.rsa_decrypt request.password ≡ some password)
    × (6 ≤ str_length password)
    × (is_email (normalize_email request.email) ≡ true)
    × (is_disallowed_email nobody.registration (normalize_email request.email) ≡ false)
    × (Users.find_by_email (normalize_email request.email) (users_of nobody) ≡ none)
    × IsRole is_match 1000 request nobody Role.admin
    × IsOpened is_match crypto salts 1000 request nobody password ann after_first
register-IsOpened_example =
    register-IsOpened is_match crypto salts 1000 request nobody {a = ann} {after = after_first}
      first

register-login_example : (login crypto salts request.email request.password after_first).0 ≡ ok ann
register-login_example =
    register-login is_match crypto salts salts 1000 request nobody {a = ann} {after = after_first}
      salt_some (omega arith) bytes-IsBytes refl first

-- The second account registers with the code that was mailed to it.
abbrev outside : Outside
outside = record { mail_configured = true; limit = none; code = 123456; goes_out = true }

abbrev mailed : Site
mailed = (send_code is_match 1000 outside request.email request.session two_users).1

sent :
    send_code is_match 1000 outside request.email request.session two_users ≡ (ok accepted, mailed)
unfolding send_code is_email split_first normalize_email to_lower_case trim Users.is_empty
    is_disallowed_email includes passes_whitelist Users.find_by_email
sent = refl

unknown : Users.find_by_email (normalize_email request.email) (users_of two_users) ≡ none
unfolding Users.find_by_email normalize_email to_lower_case trim
unknown = refl

same_code : request.code ≡ decimal outside.code
unfolding decimal
same_code = refl

send_code-register_example :
    (a : Account) × (after : Site) × (register is_match crypto salts 2000 request mailed
      ≡ (ok a, after))
    × (a.email ≡ normalize_email request.email)
    × (a.role ≡ Role.user)
send_code-register_example =
    send_code-register is_match crypto salts 1000 2000 outside request two_users {mailed = mailed}
      {password = "secret"} tt unknown sent (omega arith) same_code refl (omega arith)

-- A new password.
abbrev after_change : Site
after_change = (change_password crypto salts (some 1) "root!!" "toor!!" two_users).1

changed : change_password crypto salts (some 1) "root!!" "toor!!" two_users ≡ (ok tt, after_change)
unfolding change_password Users.find_by_id verify_password split_first from_hex bytes_eq
changed = refl

root_by_id : Users.find_by_id 1 (users_of two_users) ≡ some root
unfolding Users.find_by_id
root_by_id = refl

root_by_email : Users.find_by_email (normalize_email "root@x.org") (users_of two_users) ≡ some root
unfolding Users.find_by_email normalize_email to_lower_case trim
root_by_email = refl

root_named : is_empty (normalize_email "root@x.org") ≡ false
unfolding normalize_email to_lower_case trim
root_named = refl

change_password-login_example :
    ((login crypto salts "root@x.org" "root!!" after_change).0
      ≡ ok (record { id = 1; email = "root@x.org"; role = Role.admin }))
    ↔ (bytes "root!!" ≡ bytes "toor!!")
change_password-login_example =
    change_password-login crypto salts salts 1 "root@x.org" "root!!" "toor!!" "root!!" two_users
      {after = after_change} {u = root} {current = "root!!"} {next = "toor!!"} {plain = "root!!"}
      salt_some (omega arith) bytes-IsBytes root_named refl root_by_id root_by_email refl refl refl
      changed

-- The administrator deletes the other account, and then makes itself a user.
abbrev root_auth : Auth
root_auth = record { user_id = 1; role = Role.admin }

abbrev without_bob : Site
without_bob = (delete_user (some root_auth) (some 2) two_users).1

deleted : delete_user (some root_auth) (some 2) two_users ≡ (ok tt, without_bob)
unfolding delete_user Users.find_by_id
deleted = refl

delete_user-keeps_caller_example :
    IsRemoved 2 two_users without_bob
    × Elem root (users_of without_bob)
    × (is_admin root.role ≡ true)
delete_user-keeps_caller_example =
    delete_user-keeps_caller root_auth 2 two_users root {after = without_bob} (inl refl) refl refl
      deleted

patch_user-last_admin_example :
    let r =
      patch_user
        (some root_auth)
        (some 1)
        (record { announcement = absent; role = some "user"; group_ids = none; node_id = none })
        two_users in
    (r.0 ≡ ok tt) × All (λ v. is_admin v.role ≡ false) (users_of r.1)
patch_user-last_admin_example =
    patch_user-last_admin root_auth 1 two_users {u = root} refl root_by_id refl
      (λ e. refl, (λ e. cc, tt))

-- Calls of a site with two accounts, after a code has been mailed: the registration with the code, a
-- login and a change of password of the administrator, the choice of a node that is not there, a
-- patch, the deletion of an account, and its registration again, with no code.
abbrev history : List AccountCall
history =
    registering salts 2000 request
    ∷ signing_in salts "root@x.org" "root!!"
    ∷ changing_password salts (some 1) "root!!" "toor!!"
    ∷ selecting_node (some root_auth) "node-1"
    ∷ patching (some root_auth) (some 2)
        (record { announcement = text "hi"; role = none; group_ids = none; node_id = none })
    ∷ deleting (some root_auth) (some 2)
    ∷ registering salts 3000 (record request { email = "bob@x.org" })
    ∷ []

mailed-HasUnique : HasUnique mailed
unfolding send_code is_email split_first normalize_email to_lower_case trim Users.is_empty
    is_disallowed_email includes passes_whitelist Users.find_by_email log_as
mailed-HasUnique = record {
  apart = (((λ e. cc, λ e. cc), tt), (tt, tt));
  below = (omega arith, (omega arith, tt));
}

run_account_calls-IsUnique_example : HasUnique (run_account_calls is_match crypto history mailed)
run_account_calls-IsUnique_example =
    run_account_calls-IsUnique is_match crypto history mailed mailed-HasUnique
