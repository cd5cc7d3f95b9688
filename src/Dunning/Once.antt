-- ===== src/Dunning/Once.antt =====
-- run of backend/app/services/dunning.py, and what is due after it.
use meals.Prelude.{
  ℕ, ◌+◌, ◌*◌, ◌≡◌, ◌⊎◌, refl, ◌∙◌, ap, sym, subst, Bool, true, false, ◌&&◌, ◌||◌, not, leb, Option,
  some, List, [], ◌∷◌, ◌++◌, arith, find, any, any-append, any-update_first, all, update_first,
  ◌==◌, nat_eq, nat_beq_iff, Option-cases, Bool-cases, inl, inr,
}
use meals.Models.{Db}
use meals.Models.Users.{Household, User}
use meals.Limits.Settings.{Settings}
use meals.Limits.Enforce.{day}
use meals.Entitlements.{is_none}
use meals.Accounts.{is_user, is_household}
use meals.Dunning.{
  Kind, warning, lapse, Notice, notice, notices_of, Row, insert_row, joined_row, due_rows, collect,
  mark, due, send_all, run,
}

-- No two households have one id, as the primary key demands.
unfoldable pub distinct_households : List Household → Bool
unfolding any
distinct_households [] = true
distinct_households (h ∷ hs) = not (any (is_household h.id) hs) && distinct_households hs

abbrev pub same_kind : Kind → Kind → Bool
same_kind warning warning = true
same_kind lapse lapse = true
same_kind _ _ = false

-- Two notices of one kind to one household.
unfoldable pub same_notice : Notice → Notice → Bool
same_notice m n = n.household_id == m.household_id && same_kind m.kind n.kind

abbrev is_marked : Kind → Household → Bool
is_marked warning h = not (is_none h.expiry_warned_at)
is_marked lapse h = not (is_none h.lapse_notified_at)

-- Every row with the id is marked.
all_marked : ℕ → Kind → List Household → Bool
unfolding all
all_marked k kind hs = all (λ h. not (h.id == k) || is_marked kind h) hs

id-mark : (kind : Kind) (stamp : ℕ) (h : Household) → (mark kind stamp h).id ≡ h.id
unfolding mark
id-mark warning stamp h = refl
id-mark lapse stamp h = refl

distinct-mark :
    (j : ℕ) (kind : Kind) (stamp : ℕ) (hs : List Household)
    → distinct_households hs ≡ true
    → distinct_households (update_first (is_household j) (mark kind stamp) hs) ≡ true
unfolding distinct_households update_first
distinct-mark j kind stamp [] d = refl
distinct-mark j kind stamp (h ∷ hs) d = ground (
  arith,
  id-mark kind stamp h,
  any-update_first (is_household h.id) (is_household j) (mark kind stamp) hs
      (λ g. ap (λ i. i == h.id) (id-mark kind stamp g)),
  distinct-mark j kind stamp hs,
)

marked-mark :
    (kind kind' : Kind) (stamp : ℕ) (h : Household)
    → (is_marked kind' h ≡ true → is_marked kind' (mark kind stamp h) ≡ true)
      × (is_marked kind (mark kind stamp h) ≡ true)
unfolding mark
marked-mark warning warning stamp h = (λ _. refl, refl)
marked-mark warning lapse stamp h = (λ e. e, refl)
marked-mark lapse warning stamp h = (λ e. e, refl)
marked-mark lapse lapse stamp h = (λ _. refl, refl)

none_marked :
    (k : ℕ) (kind : Kind) (hs : List Household)
    → any (is_household k) hs ≡ false
    → all_marked k kind hs ≡ true
unfolding any all_marked all
none_marked k kind [] h = refl
none_marked k kind (x ∷ hs) h = ground (arith, none_marked k kind hs)

-- A mark marks every row with the id, and unmarks none.
all_marked-mark :
    (k : ℕ) (kind : Kind) (stamp : ℕ) (hs : List Household)
    → distinct_households hs ≡ true
    → all_marked k kind (update_first (is_household k) (mark kind stamp) hs) ≡ true
unfolding distinct_households update_first all_marked all
all_marked-mark k kind stamp [] d = refl
all_marked-mark k kind stamp (h ∷ hs) d = elim (Bool-cases (h.id == k)) [
  | inl here ↦
      let same : h.id ≡ k = (nat_beq_iff h.id k).0 here in
      let alone : any (is_household k) hs ≡ false =
        subst (λ i. any (is_household i) hs ≡ false) same (ground (arith, d)) in
      ground (arith, here, (marked-mark kind kind stamp h).1, none_marked k kind hs alone)
  | inr other ↦ ground (arith, other, d, all_marked-mark k kind stamp hs)
]

all_marked-kept :
    (k j : ℕ) (kind kind' : Kind) (stamp : ℕ) (hs : List Household)
    → all_marked k kind hs ≡ true
    → all_marked k kind (update_first (is_household j) (mark kind' stamp) hs) ≡ true
unfolding update_first all_marked all
all_marked-kept k j kind kind' stamp [] d = refl
all_marked-kept k j kind kind' stamp (h ∷ hs) d = elim (Bool-cases (is_marked kind h)) [
  | inl e ↦ ground (
    arith,
    d,
    e,
    id-mark kind' stamp h,
    (marked-mark kind' kind stamp h).0 e,
    all_marked-kept k j kind kind' stamp hs,
  )
  | inr e ↦ ground (arith, d, e, id-mark kind' stamp h, all_marked-kept k j kind kind' stamp hs)
]

kind-cases : (kind : Kind) → (kind ≡ warning) ⊎ (kind ≡ lapse)
kind-cases warning = inl refl
kind-cases lapse = inr refl

-- A household that is marked, or another one, has no such notice due.
notices_of-clear :
    (now warn_from : ℕ) (m : Notice) (h : Household) (lead : User) (expires : ℕ)
    → (not (h.id == m.household_id) || is_marked m.kind h) ≡ true
    → any (same_notice m) (notices_of now warn_from h lead expires) ≡ false
unfolding notices_of notice any same_notice
notices_of-clear now warn_from m h lead expires e = elim (kind-cases m.kind) [
  | inl k ↦
      ground (arith, ap (λ kind. not (h.id == m.household_id) || is_marked kind h) (sym k) ∙ e, k)
  | inr k ↦
      ground (arith, ap (λ kind. not (h.id == m.household_id) || is_marked kind h) (sym k) ∙ e, k)
]

any-collect-insert_row :
    (p : Notice → Bool) (now warn_from : ℕ) (r : Row) (rows : List Row)
    → any p (collect now warn_from (insert_row r rows)) ≡ (
        any p (notices_of now warn_from r.household r.lead r.expires)
        || any p (collect now warn_from rows))
unfolding collect insert_row
any-collect-insert_row p now warn_from r [] =
    any-append p (notices_of now warn_from r.household r.lead r.expires) []
any-collect-insert_row p now warn_from r (s ∷ rows) =
    let his = notices_of now warn_from r.household r.lead r.expires in
    let hers = notices_of now warn_from s.household s.lead s.expires in
    elim (Bool-cases (leb r.expires s.expires)) [
      | inl first ↦ ground (arith, first, any-append p his (hers ++ collect now warn_from rows))
      | inr later ↦ ground (
        arith,
        later,
        any-append p hers (collect now warn_from (insert_row r rows)),
        any-append p hers (collect now warn_from rows),
        any-collect-insert_row p now warn_from r rows,
      )
    ]

joined_row-household :
    (users : List User) (h : Household) (r : Row) → joined_row users h ≡ some r → r.household ≡ h
unfolding joined_row
joined_row-household users h r e = elim (Option-cases h.paid_until) [
  | inl n ↦ ground (arith, n, e)
  | inr (until, n) ↦ elim (Option-cases h.lead_user_id) [
    | inl l ↦ ground (arith, n, l, e)
    | inr (id, l) ↦ elim (Option-cases (find (is_user id) users)) [
      | inl f ↦ ground (arith, n, l, f, e)
      | inr (lead, f) ↦ ground (arith, n, l, f, e)
    ]
  ]
]

due_rows-clear :
    (now warn_from : ℕ) (m : Notice) (users : List User) (hs : List Household)
    → all_marked m.household_id m.kind hs ≡ true
    → any (same_notice m) (collect now warn_from (due_rows users hs)) ≡ false
unfolding due_rows all_marked all any collect
due_rows-clear now warn_from m users [] e = refl
due_rows-clear now warn_from m users (h ∷ hs) e =
    let rest = due_rows-clear now warn_from m users hs (ground (arith, e)) in
    elim (Option-cases (joined_row users h)) [
      | inl n ↦ ground (arith, n, rest)
      | inr (r, n) ↦
          let his : (not (r.household.id == m.household_id) || is_marked m.kind r.household)
              ≡ true =
            ap (λ (g : Household). not (g.id == m.household_id) || is_marked m.kind g)
              (joined_row-household users h r n)
            ∙ ground (arith, e) in
          ground (
            arith,
            n,
            rest,
            any-collect-insert_row (same_notice m) now warn_from r (due_rows users hs),
            notices_of-clear now warn_from m r.household r.lead r.expires his,
          )
    ]

module _ {Q : Type 0} where
  kept-send_all :
      (relay : Notice → Option ℕ) (ns : List Notice) (db : Db Q) (k : ℕ) (kind : Kind)
      → all_marked k kind db.households ≡ true
      → all_marked k kind (send_all relay ns db).1.households ≡ true
  unfolding send_all
  kept-send_all relay [] db k kind e = e
  kept-send_all relay (n ∷ ns) db k kind e = elim (Option-cases (relay n)) [
    | inl failed ↦ ground (arith, failed, kept-send_all relay ns db k kind e)
    | inr (stamp, out) ↦
        let after : Db Q = record db {
          households = update_first (is_household n.household_id) (mark n.kind stamp) db.households;
        } in
        ground (
          arith,
          out,
          kept-send_all relay ns after k kind
              (all_marked-kept k n.household_id kind n.kind stamp db.households e),
        )
  ]

  -- Every notice that went out has left its mark.
  sent-send_all :
      (relay : Notice → Option ℕ) (ns : List Notice) (db : Db Q)
      → distinct_households db.households ≡ true
      → all
          (λ m. all_marked m.household_id m.kind (send_all relay ns db).1.households)
          (send_all relay ns db).0
        ≡ true
  unfolding send_all all
  sent-send_all relay [] db d = refl
  sent-send_all relay (n ∷ ns) db d = elim (Option-cases (relay n)) [
    | inl failed ↦ ground (arith, failed, sent-send_all relay ns db d)
    | inr (stamp, out) ↦
        let after : Db Q = record db {
          households = update_first (is_household n.household_id) (mark n.kind stamp) db.households;
        } in
        ground (
          arith,
          out,
          sent-send_all relay ns after (distinct-mark n.household_id n.kind stamp db.households d),
          kept-send_all relay ns after n.household_id n.kind
              (all_marked-mark n.household_id n.kind stamp db.households d),
        )
  ]

  all-clear :
      (s : Settings) (later : ℕ) (db : Db Q) (ms : List Notice)
      → all (λ m. all_marked m.household_id m.kind db.households) ms ≡ true
      → all (λ m. not (any (same_notice m) (due s later db))) ms ≡ true
  unfolding due all
  all-clear s later db [] e = refl
  all-clear s later db (m ∷ ms) e = ground (
    arith,
    e,
    all-clear s later db ms,
    due_rows-clear later (later + s.dunning_warn_days * day) m db.users db.households
        (ground (arith, e)),
  )

  -- When no two households have one id, then none of the notices that a run sends is due again at
  -- any instant after it: neither the warning nor the news of the end reaches a household twice
  -- before its entitlement changes. A trial run is left out, since it sends nothing.
  pub due-run :
      (s : Settings) (relay : Notice → Option ℕ) (now later : ℕ) (db : Db Q)
      → distinct_households db.households ≡ true
      → all
          (λ m. not (any (same_notice m) (due s later (run s relay now false db).1)))
          (run s relay now false db).0
        ≡ true
  unfolding run all
  due-run s relay now later db d =
      let calm : List Notice × Db Q → Bool =
        λ o. all (λ m. not (any (same_notice m) (due s later o.1))) o.0 in
      elim (Bool-cases s.email_configured) [
        | inl on ↦
            let sent : run s relay now false db ≡ send_all relay (due s now db) db =
              ground (arith, on) in
            ap calm sent
            ∙ all-clear s later (send_all relay (due s now db) db).1
                (send_all relay (due s now db) db).0 (sent-send_all relay (due s now db) db d)
        | inr off ↦
            let silent : run s relay now false db ≡ ([], db) = ground (arith, off) in ap calm silent
      ]
