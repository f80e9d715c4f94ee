-- ===== src/Session/Presence.antt =====
-- The live usage counts of SharedState in src/client_session.h.
use mathlib.Core.Option.{some-injective}
use shad_net.Prelude.{
  ℕ, ◌+◌, ◌-◌, ◌≡◌, ◌∙◌, refl, subst, Bool, true, false, ◌&&◌, Option, none, some, [], ◌∷◌,
  if◌then◌else◌, arith, String, ltb, leb, ◌==◌, string_eq, Bool-cases, Option-cases, inl, inr,
}
use shad_net.Prelude.Int.{ℤ, int_eq}
use shad_net.Prelude.Assoc.{Assoc, find, insert, remove, find-insert, find-remove}

pub record Usage : Type 0 where
  pub total_online : ℕ
  pub game_users : Assoc String ℕ
  pub client_game : Assoc ℤ String

-- UsageOnLogin
abbrev pub usage_on_login : Usage → Usage
usage_on_login s = record s { total_online = s.total_online + 1 }

leave_found : String → Option ℕ → Assoc String ℕ → Assoc String ℕ
leave_found com_id none users = users
leave_found com_id (some n) users =
    if leb n 1 then remove com_id users else insert com_id (n - 1) users

-- A game loses a user, and its entry with the last one.
unfoldable pub leave_game : String → Assoc String ℕ → Assoc String ℕ
unfolding leave_found
leave_game com_id users = leave_found com_id (find com_id users) users

abbrev pub count_of : String → Assoc String ℕ → ℕ
count_of com_id users = elim (find com_id users) [ none ↦ 0 | some n ↦ n ]

-- `++usageGameUsers[comId]`
unfoldable pub join_game : String → Assoc String ℕ → Assoc String ℕ
join_game com_id users = insert com_id (count_of com_id users + 1) users

logout_found : ℤ → Option String → Usage → Usage
unfolding leave_game
logout_found user none s = s
logout_found user (some com_id) s = record s {
  game_users = leave_game com_id s.game_users;
  client_game = remove user s.client_game;
}

-- UsageOnLogout
unfoldable pub usage_on_logout : ℤ → Bool → Usage → Usage
unfolding logout_found
usage_on_logout user counted_online s = logout_found user (find user s.client_game) (record s {
  total_online =
      if counted_online && ltb 0 s.total_online then s.total_online - 1 else s.total_online;
})

touch_found : ℤ → String → Option String → Usage → Usage × Bool
unfolding join_game leave_game
touch_found user com_id none s = (
  record s {
    game_users = join_game com_id s.game_users;
    client_game = insert user com_id s.client_game;
  },
  true,
)
touch_found user com_id (some old) s = if old == com_id then (s, false) else (
  record s {
    game_users = join_game com_id (leave_game old s.game_users);
    client_game = insert user com_id s.client_game;
  },
  true,
)

-- UsageTouchGame: the counts, and whether the user's game has changed.
unfoldable pub usage_touch_game : ℤ → String → Usage → Usage × Bool
unfolding touch_found
usage_touch_game user com_id s =
    if com_id == "" then (s, false) else touch_found user com_id (find user s.client_game) s

-- The users whose game it is: what the counts stand for.
unfoldable pub players : String → Assoc ℤ String → ℕ
players com_id [] = 0
players com_id ((u, c) ∷ m) = let rest = players com_id m in if c == com_id then rest + 1 else rest

-- Each user stands once.
unfoldable pub IsOnce : Assoc ℤ String → Type 0
IsOnce [] = Unit
IsOnce ((u, c) ∷ m) = (find u m ≡ none) × IsOnce m

insert-IsOnce : (u : ℤ) (c : String) (m : Assoc ℤ String) → IsOnce m → IsOnce (insert u c m)
unfolding IsOnce insert find
insert-IsOnce u c [] v = (refl, tt)
insert-IsOnce u c ((w, d) ∷ m) v = elim (Bool-cases (int_eq.beq w u)) [
  | inl y ↦ rw (y, insert, IsOnce) (ground (arith, v.0, int_eq.beq_iff w u), v.1)
  | inr z ↦
      rw (z, insert, IsOnce)
        (
          find-insert u w c m ∙ ground (arith, v.0, int_eq.beq_iff u w, int_eq.beq_iff w u),
          insert-IsOnce u c m v.1,
        )
]

remove-IsOnce : (u : ℤ) (m : Assoc ℤ String) → IsOnce m → IsOnce (remove u m)
unfolding IsOnce remove find
remove-IsOnce u [] v = tt
remove-IsOnce u ((w, d) ∷ m) v = elim (Bool-cases (int_eq.beq w u)) [
  | inl y ↦ rw (y, remove) (remove-IsOnce u m v.1)
  | inr z ↦ rw (z, remove, IsOnce) (find-remove u w m ∙ ground (arith, v.0), remove-IsOnce u m v.1)
]

players-insert_new :
    (g : String) (u : ℤ) (c : String) (m : Assoc ℤ String)
    → find u m ≡ none
    → players g (insert u c m) ≡ players g m + (if c == g then 1 else 0)
unfolding players insert find
players-insert_new g u c [] h = ground arith
players-insert_new g u c ((w, d) ∷ m) h = ground (arith, players-insert_new g u c m)

players-insert_old :
    (g : String) (u : ℤ) (c old : String) (m : Assoc ℤ String)
    → find u m ≡ some old
    → players g (insert u c m) + (if old == g then 1 else 0)
      ≡ players g m + (if c == g then 1 else 0)
unfolding players insert find
players-insert_old g u c old [] h = ground arith
players-insert_old g u c old ((w, d) ∷ m) h = elim (Bool-cases (int_eq.beq w u)) [
  | inl y ↦
      let same : d ≡ old = some-injective d old (rw (y, find) at h) in
      rw (y, same, insert) (ground arith)
  | inr z ↦ rw (z, insert) (ground (arith, players-insert_old g u c old m (rw (z, find) at h)))
]

remove-none : (u : ℤ) (m : Assoc ℤ String) → find u m ≡ none → remove u m ≡ m
unfolding remove find
remove-none u [] h = refl
remove-none u ((w, d) ∷ m) h = ground (arith, remove-none u m)

players-remove :
    (g : String) (u : ℤ) (old : String) (m : Assoc ℤ String)
    → IsOnce m
    → find u m ≡ some old
    → players g (remove u m) + (if old == g then 1 else 0) ≡ players g m
unfolding players remove find IsOnce
players-remove g u old [] v h = ground arith
players-remove g u old ((w, d) ∷ m) v h = elim (Bool-cases (int_eq.beq w u)) [
  | inl y ↦
      let same : d ≡ old = some-injective d old (rw (y, find) at h) in
      let alone : find u m ≡ none = subst (λ k. find k m ≡ none) ((int_eq.beq_iff w u).0 y) v.0 in
      rw (y, same, remove-none u m alone, remove) (ground arith)
  | inr z ↦ rw (z, remove) (ground (arith, players-remove g u old m v.1 (rw (z, find) at h)))
]

-- The counts are right: each user has one game, and a game's count is the number of its users.
pub record IsCounted (s : Usage) : Type 0 where
  pub once : IsOnce s.client_game
  pub counts : (g : String) → count_of g s.game_users ≡ players g s.client_game

count_of-join_game :
    (g com_id : String) (users : Assoc String ℕ)
    → count_of g (join_game com_id users) ≡ count_of g users + (if com_id == g then 1 else 0)
unfolding join_game
count_of-join_game g com_id users =
    ground
      (arith, find-insert com_id g (count_of com_id users + 1) users, string_eq.beq_iff com_id g)

count_of-leave_game :
    (g com_id : String) (users : Assoc String ℕ)
    → count_of g (leave_game com_id users) ≡ count_of g users - (if com_id == g then 1 else 0)
unfolding leave_game
count_of-leave_game g com_id users = elim (Option-cases (find com_id users)) [
  | inl n ↦ rw (n, leave_game) (ground (arith, string_eq.beq_iff com_id g))
  | inr (k, y) ↦ ground (
    arith,
    find-insert com_id g (k - 1) users,
    find-remove com_id g users,
    string_eq.beq_iff com_id g,
  )
]

module _ (s : Usage) (v : IsCounted s) (user : ℤ) where
  usage_touch_game-IsCounted : (com_id : String) → IsCounted (usage_touch_game user com_id s).0
  unfolding usage_touch_game touch_found
  usage_touch_game-IsCounted com_id = elim (Bool-cases (string_eq.beq com_id "")) [
    | inl e ↦ rw (e, usage_touch_game) v
    | inr ne ↦ elim (Option-cases (find user s.client_game)) [
      | inl n ↦
          rw (ne, n, usage_touch_game)
            (record {
              once = insert-IsOnce user com_id s.client_game v.once;
              counts = λ g. omega (
                arith,
                count_of-join_game g com_id s.game_users,
                players-insert_new g user com_id s.client_game n,
                v.counts g,
              );
            })
      | inr (old, y) ↦ elim (Bool-cases (string_eq.beq old com_id)) [
        | inl same ↦ rw (ne, y, same, usage_touch_game) v
        | inr other ↦
            rw (ne, y, other, usage_touch_game)
              (record {
                once = insert-IsOnce user com_id s.client_game v.once;
                counts = λ g. omega (
                  arith,
                  count_of-join_game g com_id (leave_game old s.game_users),
                  count_of-leave_game g old s.game_users,
                  players-insert_old g user com_id old s.client_game y,
                  players-remove g user old s.client_game v.once y,
                  v.counts g,
                );
              })
      ]
    ]
  ]

  usage_on_logout-IsCounted :
      (counted_online : Bool) → IsCounted (usage_on_logout user counted_online s)
  unfolding usage_on_logout logout_found
  usage_on_logout-IsCounted counted_online = elim (Option-cases (find user s.client_game)) [
    | inl n ↦ rw (n, usage_on_logout) (record { once = v.once; counts = v.counts })
    | inr (old, y) ↦
        rw (y, usage_on_logout)
          (record {
            once = remove-IsOnce user s.client_game v.once;
            counts = λ g. omega (
              arith,
              count_of-leave_game g old s.game_users,
              players-remove g user old s.client_game v.once y,
              v.counts g,
            );
          })
  ]

-- A login, a game command or a logout of any user.
pub data Step (s : Usage) : Usage → Type 0 where
  logs_in : Step s (usage_on_login s)
  touches : (user : ℤ) (com_id : String) → Step s (usage_touch_game user com_id s).0
  logs_out : (user : ℤ) (counted_online : Bool) → Step s (usage_on_logout user counted_online s)

pub data Reach : Usage → Type 0 where
  start : Reach (record { total_online = 0; game_users = []; client_game = [] })
  next : {s t : Usage} → Reach s → Step s t → Reach t

Step-IsCounted : {s t : Usage} → Step s t → IsCounted s → IsCounted t
Step-IsCounted logs_in v = record { once = v.once; counts = v.counts }
Step-IsCounted {s = s} (touches user com_id) v = usage_touch_game-IsCounted s v user com_id
Step-IsCounted {s = s} (logs_out user counted) v = usage_on_logout-IsCounted s v user counted

-- After any logins, game commands and logouts from a server without users, each user has one game
-- at most, and the count kept for a game is the number of the users whose game it is.
pub Reach-IsCounted : (s : Usage) → Reach s → IsCounted s
unfolding IsOnce find players
Reach-IsCounted _ start = record { once = tt; counts = λ g. omega arith }
Reach-IsCounted _ (next r step) = Step-IsCounted step (Reach-IsCounted _ r)
