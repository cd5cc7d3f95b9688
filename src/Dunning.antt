-- ===== src/Dunning.antt =====
-- backend/app/services/dunning.py: the two notices about an entitlement that ends.
pub mod Once
use meals.Prelude.{
  ℕ, ◌+◌, ◌*◌, String, Bool, true, false, ◌&&◌, not, ltb, leb, Option, none, some, List, [], ◌∷◌,
  ◌++◌, find, update_first, ◌==◌, nat_eq, if◌then◌else◌,
}
use meals.Models.{Db}
use meals.Models.Users.{Household, User}
use meals.Limits.Settings.{Settings}
use meals.Limits.Enforce.{day}
use meals.Entitlements.{is_none}
use meals.Accounts.{is_user, is_household}

-- `WARNING` and `LAPSE`
pub data Kind : Type 0 where
  warning lapse : Kind

pub record Notice : Type 0 where
  pub kind : Kind
  pub household_id : ℕ
  pub household_name : String
  pub to : String
  pub paid_until : ℕ

-- `_notice`
unfoldable pub notice : Kind → Household → User → ℕ → Notice
notice kind h lead expires = record {
  kind = kind;
  household_id = h.id;
  household_name = h.name;
  to = lead.email;
  paid_until = expires;
}

-- One round of the loop of `due`, for a household with its lead and its expiry.
unfoldable pub notices_of : ℕ → ℕ → Household → User → ℕ → List Notice
unfolding notice
notices_of now warn_from h lead expires =
    if leb expires now
    then if is_none h.lapse_notified_at then notice lapse h lead expires ∷ [] else []
    else if leb expires warn_from && is_none h.expiry_warned_at
    then notice warning h lead expires ∷ []
    else []

-- A row of the query: a household with an expiry, joined to its lead.
pub record Row : Type 0 where
  pub household : Household
  pub lead : User
  pub expires : ℕ

-- `order_by(Household.paid_until)`: rows of one date stay in the order of the table.
unfoldable pub insert_row : Row → List Row → List Row
insert_row r [] = r ∷ []
insert_row r (s ∷ rows) =
    let rest = insert_row r rows in if leb r.expires s.expires then r ∷ s ∷ rows else s ∷ rest

-- `.join(User, Household.lead_user_id == User.id).where(Household.paid_until.is_not(None))`
unfoldable pub joined_row : List User → Household → Option Row
unfolding find
joined_row users h = elim h.paid_until [
  | none ↦ none
  | some expires ↦ elim h.lead_user_id [
    | none ↦ none
    | some id ↦ elim (find (is_user id) users) [
      | none ↦ none
      | some lead ↦ some (record { household = h; lead = lead; expires = expires })
    ]
  ]
]

unfoldable pub due_rows : List User → List Household → List Row
unfolding joined_row insert_row
due_rows users [] = []
due_rows users (h ∷ hs) =
    let rest = due_rows users hs in
    elim (joined_row users h) [ none ↦ rest | some r ↦ insert_row r rest ]

unfoldable pub collect : ℕ → ℕ → List Row → List Notice
unfolding notices_of
collect now warn_from [] = []
collect now warn_from (r ∷ rows) =
    notices_of now warn_from r.household r.lead r.expires ++ collect now warn_from rows

-- The mark that a notice leaves on its household.
unfoldable pub mark : Kind → ℕ → Household → Household
mark warning stamp h = record h { expiry_warned_at = some stamp }
mark lapse stamp h = record h { lapse_notified_at = some stamp }

module _ {Q : Type 0} where
  unfoldable pub due : Settings → ℕ → Db Q → List Notice
  unfolding due_rows collect
  due s now db = collect now (now + s.dunning_warn_days * day) (due_rows db.users db.households)

  -- The loop of `run`. `relay` says at what instant a mail went out, and `none` that it failed.
  unfoldable pub send_all : (Notice → Option ℕ) → List Notice → Db Q → List Notice × Db Q
  unfolding mark update_first
  send_all relay [] db = ([], db)
  send_all relay (n ∷ notices) db =
      let failed = send_all relay notices db in
      elim (relay n) [
        | none ↦ failed
        | some stamp ↦
            let (sent, after) = send_all relay notices (record db {
              households =
                  update_first (is_household n.household_id) (mark n.kind stamp) db.households;
            }) in
            (n ∷ sent, after)
      ]

  unfoldable pub run : Settings → (Notice → Option ℕ) → ℕ → Bool → Db Q → List Notice × Db Q
  unfolding due send_all
  run s relay now dry_run db =
      let notices = due s now db in
      if dry_run
      then (notices, db)
      else if not s.email_configured
      then ([], db)
      else send_all relay notices db
