-- ===== src/Bot/Merge.antt =====
-- examples/bot_client.cc: what a world says of a player, before and after `mergeSnapshot`.
use my_game_server.Base.{
  ℕ, ◌==◌, if◌then◌else◌, true, false, List, [], ◌∷◌, ◌++◌, Option, none, some, map, ◌≡◌, refl,
  arith, All, Bool-cases, inl, inr, ==→eq, ap,
}
use my_game_server.Base.IdSet.{mem}
use my_game_server.BattleSim.Defs.{Floats}
use my_game_server.Room.Defs.{PlayerState}
use my_game_server.Bot.{replace_all, found, merge_one, merge_all}

pub All-Mem {ℓ} : (P : ℕ → Type ℓ) (ids : List ℕ) → ((k : ℕ) → mem k ids ≡ true → P k) → All P ids
unfolding mem
All-Mem P [] h = tt
All-Mem P (id ∷ ids) h = (h id (ground arith), All-Mem P ids (λ k m. h k (ground (arith, m))))

module _ (fl : Floats) where
  open fl use {Float}

  -- The entry of a player: the first one.
  unfoldable pub view : ℕ → List (PlayerState fl) → Option (PlayerState fl)
  view k [] = none
  view k (w ∷ ws) = if w.player_id == k then some w else view k ws

  view-replace_all :
      (k : ℕ) (p : PlayerState fl) (ws : List (PlayerState fl))
      → view k (replace_all fl p ws)
        ≡ (if p.player_id == k then (if found fl k ws then some p else none) else view k ws)
  unfolding view replace_all found
  view-replace_all k p [] = ground arith
  view-replace_all k p (w ∷ ws) = ground (arith, view-replace_all k p ws)

  view-append :
      (k : ℕ) (p : PlayerState fl) (ws : List (PlayerState fl))
      → view k (ws ++ (p ∷ []))
        ≡ (if found fl k ws then view k ws else if p.player_id == k then some p else none)
  unfolding view found
  view-append k p [] = refl
  view-append k p (w ∷ ws) = ground (arith, view-append k p ws)

  view-missing : (k : ℕ) (ws : List (PlayerState fl)) → found fl k ws ≡ false → view k ws ≡ none
  unfolding view found
  view-missing k [] h = refl
  view-missing k (w ∷ ws) h = ground (arith, view-missing k ws)

  found_same :
      (k id : ℕ) (ws : List (PlayerState fl)) → (id == k) ≡ true → found fl id ws ≡ found fl k ws
  found_same k id ws e = ap (λ i. found fl i ws) (==→eq id k e)

  pub view-merge_one :
      (k : ℕ) (p : PlayerState fl) (ws : List (PlayerState fl))
      → view k (merge_one fl p ws) ≡ (if p.player_id == k then some p else view k ws)
  unfolding merge_one
  view-merge_one k p ws = ground (
    arith,
    view-replace_all k p ws,
    view-append k p ws,
    view-missing k ws,
    found_same k p.player_id ws,
  )

  -- An incremental snapshot replaces the entries of the players that it names and keeps the others.
  pub view-merge_all :
      (k : ℕ) (f : ℕ → PlayerState fl) (ids : List ℕ) (ws : List (PlayerState fl))
      → All (λ id. (f id).player_id ≡ id) ids
      → view k (merge_all fl (map f ids) ws) ≡ (if mem k ids then some (f k) else view k ws)
  unfolding merge_all mem
  view-merge_all k f [] ws h = refl
  view-merge_all k f (id ∷ ids) ws (e, h) = elim (Bool-cases (id == k)) [
    | inl here ↦ ground (
      arith,
      view-merge_all k f ids (merge_one fl (f id) ws) h,
      view-merge_one k (f id) ws,
      here,
      e,
      ap f (==→eq id k here),
    )
    | inr other ↦
        ground
          (arith, view-merge_all k f ids (merge_one fl (f id) ws) h, view-merge_one k (f id) ws)
  ]

  pub view-map :
      (k : ℕ) (f : ℕ → PlayerState fl) (ids : List ℕ)
      → All (λ id. (f id).player_id ≡ id) ids
      → view k (map f ids) ≡ (if mem k ids then some (f k) else none)
  unfolding view mem
  view-map k f [] h = refl
  view-map k f (id ∷ ids) (e, h) = elim (Bool-cases (id == k)) [
    | inl here ↦ ground (arith, ap f (==→eq id k here))
    | inr other ↦ ground (arith, view-map k f ids h)
  ]
