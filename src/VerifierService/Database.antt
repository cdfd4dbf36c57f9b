-- ===== src/VerifierService/Database.antt =====
-- verifier_service/database.py: the four tables of the SQLite store. `Hashlib` is the parameter for
-- hashlib's C code and Unicode's lower case; clocks and random texts are arguments. A datetime that
-- is stored as ISO text reads back as the same instant, and ISO texts in UTC are in the order of time.
pub mod Calls
pub mod Sessions
pub mod Accounts
pub mod Consistent
mod Tests
use agent_of_record.Common.{
  ℕ, ◌+◌, ◌*◌, String, Bool, true, not, ◌&&◌, ◌||◌, Option, none, some, List, [], ◌∷◌, ◌++◌, map,
  ltb, leb, if◌then◌else◌, ◌==◌, nat_eq, string_eq, list_eq, option_eq, text_length, take,
  value_error, runtime_error, integrity_error, Result, ok, err, ◌>>=◌, ◌>>◌, raise_if, or_raise,
  is_some,
}
use Prim.Native.Char.{Char, code}
use Prim.Native.String.{◌++◌ as text_append}
use agent_of_record.Common.Dict.{Dict, lookup, insert}
use agent_of_record.Common.Find.{find, keep}
use agent_of_record.Common.Text.{strip, contains_code}
use agent_of_record.CryptoCore.{Bytes}
use agent_of_record.Json.{Json}
use agent_of_record.VerifierService.Models.{SignedEnvelope}

pub record Hashlib : Type 0 where
  -- `hashlib.pbkdf2_hmac("sha256", password.encode("utf-8"), salt, 310_000)`
  pub pbkdf2_hmac : String → Bytes → Bytes
  -- `hashlib.sha256(token.encode("utf-8")).hexdigest()`
  pub sha256 : String → String
  pub lower : String → String

pub record UserRow : Type 0 where
  pub id : String
  pub name : String
  pub email : String
  pub password_salt : Bytes
  pub password_hash : Bytes
  pub role : String
  pub created_at : ℕ

pub record SessionRow : Type 0 where
  pub token_hash : String
  pub user_id : String
  pub created_at : ℕ
  pub expires_at : ℕ

pub record PromptRow : Type 0 where
  pub id : ℕ
  pub user_id : String
  pub session_id : String
  pub prompt : String
  pub envelope : SignedEnvelope
  pub action_id : Option String
  pub eml_path : Option String
  pub verification : Option Json
  pub created_at : ℕ

pub record SqliteDatabase : Type 0 where
  pub users : List UserRow
  pub sessions : List SessionRow
  pub prompt_records : List PromptRow
  -- the identifier that AUTOINCREMENT gives next
  pub next_prompt_id : ℕ
  pub action_evidence : Dict String String

abbrev pub empty_tables : SqliteDatabase
empty_tables = record {
  users = [];
  sessions = [];
  prompt_records = [];
  next_prompt_id = 1;
  action_evidence = [];
}

pub record PublicUser : Type 0 where
  pub id : String
  pub name : String
  pub email : String
  pub role : String
  pub created_at : ℕ

unfoldable pub public_user : UserRow → PublicUser
public_user row = record {
  id = row.id;
  name = row.name;
  email = row.email;
  role = row.role;
  created_at = row.created_at;
}

-- What SQLite's NOCASE compares: the 26 capital letters of ASCII fold to small ones.
unfoldable pub nocase : String → List ℕ
nocase String.[] = []
nocase (String.◌∷◌ c s) =
    (if leb 65 (code c) && leb (code c) 90 then code c + 32 else code c) ∷ nocase s

abbrev pub has_id : String → UserRow → Bool
has_id user_id row = row.id == user_id

abbrev pub has_email : String → UserRow → Bool
has_email email row = nocase row.email == nocase email

abbrev pub has_hash : String → SessionRow → Bool
has_hash token_hash row = row.token_hash == token_hash

abbrev pub has_action : String → PromptRow → Bool
has_action action_id row = row.action_id == some action_id

-- `INSERT INTO users`, with its primary key and the unique email
unfoldable pub insert_user : UserRow → List UserRow → Result (List UserRow)
insert_user row rows =
    if is_some (find (has_id row.id) rows) || is_some (find (has_email row.email) rows)
    then err (value_error "An account with this email already exists.")
    else ok (rows ++ row ∷ [])

-- The random texts and the clock, as one call of `create_user` reads them.
pub record Fresh : Type 0 where
  pub token : String
  pub salt : Bytes
  pub now : ℕ

unfoldable pub user_by_id : String → SqliteDatabase → Option PublicUser
user_by_id user_id db = elim (find (has_id user_id) db.users) [
  | none ↦ none
  | some row ↦ some (public_user row)
]

module _ ⦃h : Hashlib⦄ where
  abbrev pub normalized : String → String
  normalized email = h.lower (strip email)

  abbrev pub new_user : String → String → String → Fresh → UserRow
  new_user name email password at = record {
    id = text_append "usr_" at.token;
    name = strip name;
    email = normalized email;
    password_salt = at.salt;
    password_hash = h.pbkdf2_hmac password at.salt;
    role = "Member";
    created_at = at.now;
  }

  unfoldable pub create_user :
      String → String → String → Fresh → SqliteDatabase → Result (PublicUser × SqliteDatabase)
  create_user name email password at db = do
    raise_if (strip name == "" || not (contains_code 64 (normalized email)))
        (value_error "Name and a valid email address are required.")
    raise_if (ltb (text_length password) 6)
        (value_error "Password must be at least 6 characters long.")
    users ← insert_user (new_user name email password at) db.users
    row ←
        or_raise (find (has_id (text_append "usr_" at.token)) users)
          (runtime_error "AssertionError")
    ok (public_user row, record db { users = users })

  -- The accounts that are made when the table is empty; an exception leaves the constructor.
  unfoldable pub seed_demo_accounts : Fresh → Fresh → SqliteDatabase → Result SqliteDatabase
  seed_demo_accounts alex jane db = elim db.users [
    | row ∷ rows ↦ ok db
    | [] ↦ do
      first ← create_user "Alex Morgan" "alex@example.com" "Password123!" alex db
      second ← create_user "Jane Doe" "user@example.com" "password123" jane first.1
      ok second.1
  ]

  unfoldable pub authenticate : String → String → SqliteDatabase → Option PublicUser
  authenticate email password db = elim (find (has_email (normalized email)) db.users) [
    | none ↦ none
    | some row ↦
        if h.pbkdf2_hmac password row.password_salt == row.password_hash
        then some (public_user row)
        else none
  ]

  -- The foreign key wants a user, and the primary key a new token.
  unfoldable pub create_session :
      String → ℕ → String → ℕ → SqliteDatabase → Result (String × SqliteDatabase)
  create_session user_id ttl_days token now db = do
    raise_if (is_some (find (has_hash (h.sha256 token)) db.sessions))
        (integrity_error "UNIQUE constraint failed: sessions.token_hash")
    raise_if (not (is_some (find (has_id user_id) db.users)))
        (integrity_error "FOREIGN KEY constraint failed")
    let row : SessionRow = record {
      token_hash = h.sha256 token;
      user_id = user_id;
      created_at = now;
      expires_at = now + ttl_days * 86400000000;
    }
    ok (token, record db { sessions = db.sessions ++ row ∷ [] })

  -- The session of a token joined with its user, until it expires.
  unfoldable pub session_user : ℕ → Option SessionRow → SqliteDatabase → Option PublicUser
  unfolding user_by_id
  session_user now none db = none
  session_user now (some session) db =
      if leb session.expires_at now then none else user_by_id session.user_id db

  unfoldable pub user_from_token : Option String → ℕ → SqliteDatabase → Option PublicUser
  user_from_token none now db = none
  user_from_token (some token) now db =
      if token == ""
      then none
      else session_user now (find (has_hash (h.sha256 token)) db.sessions) db

  unfoldable pub revoke_session : Option String → SqliteDatabase → SqliteDatabase
  revoke_session none db = db
  revoke_session (some token) db =
      if token == ""
      then db
      else record db { sessions = keep (λ row. not (has_hash (h.sha256 token) row)) db.sessions }

-- A unique column takes any number of NULLs.
unfoldable pub takes_action : Option String → List PromptRow → Bool
takes_action none rows = true
takes_action (some action_id) rows = not (is_some (find (has_action action_id) rows))

unfoldable pub save_prompt :
    SignedEnvelope
    → String
    → Option String
    → Option String
    → Option Json
    → ℕ
    → SqliteDatabase
    → Result (ℕ × SqliteDatabase)
unfolding takes_action
save_prompt envelope user_id action_id eml_path verification now db = do
  raise_if (not (takes_action action_id db.prompt_records))
      (integrity_error "UNIQUE constraint failed: prompt_records.action_id")
  let row : PromptRow = record {
    id = db.next_prompt_id;
    user_id = user_id;
    session_id = envelope.session_id;
    prompt = envelope.prompt;
    envelope = envelope;
    action_id = action_id;
    eml_path = eml_path;
    verification = verification;
    created_at = now;
  }
  ok (
    db.next_prompt_id,
    record db {
      prompt_records = db.prompt_records ++ row ∷ [];
      next_prompt_id = db.next_prompt_id + 1;
    },
  )

-- `COALESCE(?, verification_json)`
abbrev pub coalesce : Option Json → Option Json → Option Json
coalesce none old = old
coalesce (some new) old = some new

unfoldable pub update_prompt_action :
    String → String → Option Json → SqliteDatabase → SqliteDatabase
update_prompt_action action_id eml_path verification db = record db {
  prompt_records =
      map
        (λ row.
          if has_action action_id row
          then record row {
            eml_path = some eml_path;
            verification = coalesce verification row.verification;
          }
          else row)
        db.prompt_records;
}

unfoldable pub update_verification : String → Json → SqliteDatabase → SqliteDatabase
update_verification action_id verification db = record db {
  prompt_records =
      map
        (λ row.
          if has_action action_id row then record row { verification = some verification } else row)
        db.prompt_records;
}

unfoldable pub save_action_evidence : String → String → SqliteDatabase → SqliteDatabase
save_action_evidence action_id evidence_json db = record db {
  action_evidence = insert action_id evidence_json db.action_evidence;
}

unfoldable pub get_action_evidence : String → SqliteDatabase → Option String
get_action_evidence action_id db = lookup action_id db.action_evidence

-- `ORDER BY created_at DESC`; rows of one time stay in the order of insertion.
unfoldable pub insert_latest : PromptRow → List PromptRow → List PromptRow
insert_latest row [] = row ∷ []
insert_latest row (r ∷ rows) =
    if leb r.created_at row.created_at then row ∷ r ∷ rows else r ∷ insert_latest row rows

unfoldable pub latest_first : List PromptRow → List PromptRow
unfolding insert_latest
latest_first [] = []
latest_first (row ∷ rows) = insert_latest row (latest_first rows)

-- What `list_prompts` tells of a row.
pub record PromptItem : Type 0 where
  pub id : ℕ
  pub prompt : String
  pub session_id : String
  pub action_id : Option String
  pub eml_path : Option String
  pub verification : Option Json
  pub created_at : ℕ

abbrev pub prompt_item : PromptRow → PromptItem
prompt_item row = record {
  id = row.id;
  prompt = row.prompt;
  session_id = row.session_id;
  action_id = row.action_id;
  eml_path = row.eml_path;
  verification = row.verification;
  created_at = row.created_at;
}

unfoldable pub list_prompts : String → ℕ → SqliteDatabase → List PromptItem
unfolding latest_first
list_prompts user_id limit db =
    map prompt_item
      (take limit (latest_first (keep (λ row. row.user_id == user_id) db.prompt_records)))
