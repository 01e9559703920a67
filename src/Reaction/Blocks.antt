-- ===== src/Reaction/Blocks.antt =====
-- What a blocking reaction leaves in the store.
use human_guard.Base.{ℕ, String, ◌≡◌, ◌⊎◌, inl, inr, true, arith, Bool-cases}
use human_guard.Errors.{Error, ok, err, Result-cases}
use human_guard.Reaction.{
  SessionInfo, ReactionConfig, Store, get_risk_level, handle_low_risk, handle_medium_risk,
  handle_high_risk, high_risk_reason, blacklist_duration, react_to_level, react,
}

-- What the service relies on in its store: a session whose block is answered without an error is
-- marked, and an entry of the blacklist does not take the mark away. A store may refuse a block, as
-- the one of backend/storage/session.go does for a session that it does not have.
pub record KeepsBlocks {S : Type 0} (store : Store S) (IsMarked : String → S → Type 0)
    : Type 0 where
  pub block_marks :
      (id : String) (st : S)
      → (store.block_session id st).1 ≡ ok tt
      → IsMarked id (store.block_session id st).0
  pub blacklist_keeps :
      (id site ip reason : String) (duration : ℕ) (st : S)
      → IsMarked id st
      → IsMarked id (store.add_to_blacklist site ip reason duration st).0

-- Why a session is not marked after a reaction that blocks it: the store has refused.
abbrev pub Refuses : {S : Type 0} → Store S → String → S → Type 0
Refuses store id st = (e : Error) × ((store.block_session id st).1 ≡ err e)

block_session-marks :
    {S : Type 0} (store : Store S) (IsMarked : String → S → Type 0)
    → KeepsBlocks store IsMarked
    → (id : String) (st : S) → Refuses store id st ⊎ IsMarked id (store.block_session id st).0
block_session-marks store IsMarked laws id st = elim (Result-cases (store.block_session id st).1) [
  | inl refused ↦ inl refused
  | inr (_, done) ↦ inr (laws.block_marks id st done)
]

handle_high_risk_marks :
    {S : Type 0} (show_int : ℕ → String) (store : Store S) (IsMarked : String → S → Type 0)
    → KeepsBlocks store IsMarked
    → (cfg : ReactionConfig) (s : SessionInfo) (st : S)
    → Refuses store s.id st ⊎ IsMarked s.id (handle_high_risk show_int store cfg s st).0
unfolding handle_high_risk
handle_high_risk_marks show_int store IsMarked laws cfg s st =
    elim (block_session-marks store IsMarked laws s.id st) [
      | inl refused ↦ inl refused
      | inr marked ↦ elim (Bool-cases cfg.add_to_blacklist) [
        | inl listed ↦ inr (
            rw (listed, handle_high_risk)
              (laws.blacklist_keeps s.id s.site_id s.ip (high_risk_reason show_int store cfg s)
                (blacklist_duration cfg) (store.block_session s.id st).0 marked))
        | inr plain ↦ inr (rw (plain, handle_high_risk) marked)
      ]
    ]

-- Whatever the configuration, a reaction that answers with a block was for a session that was
-- blocked already, or for one that the store refused to block, or it leaves the session marked as
-- blocked in the store. (The refusal is only logged.)
pub react_blocks :
    {S : Type 0} (show_int : ℕ → String) (store : Store S) (IsMarked : String → S → Type 0)
    → KeepsBlocks store IsMarked
    → (cfg : ReactionConfig) (s : SessionInfo) (st : S)
    → (react show_int store cfg s st).1.blocked ≡ true
    → (s.is_blocked ≡ true)
      ⊎ Refuses store s.id st
      ⊎ IsMarked s.id (react show_int store cfg s st).0
unfolding react react_to_level get_risk_level handle_low_risk handle_medium_risk
react_blocks show_int store IsMarked laws cfg s st blocked = ground (
  arith,
  handle_high_risk_marks show_int store IsMarked laws cfg s st,
  block_session-marks store IsMarked laws s.id st,
)
