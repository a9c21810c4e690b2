-- ===== src/Whitelist/Authorized.antt =====
-- whitelist/ip.go: which clients pass.
use fabric8_oso_proxy.Base.{
  Bool, true, false, Option, none, some, List, [], ◌∷◌, ◌++◌, ◌≡◌, ◌↔◌, ◌⊎◌, inl, inr, refl, sym,
  ap, ◌∙◌, if◌then◌else◌, All,
}
use fabric8_oso_proxy.Base.Strings.{Str}
use fabric8_oso_proxy.Whitelist.{
  Addresses, Ip, Client, Refusal, contains, parse_host, verdict, check_host, check_remote, on_entry,
  check_entries, entries, is_authorized,
}

module _ {A N : Type 0} (net : Addresses A N) (ip : Ip A N) (c : Client) where
  -- An entry is an address off the list, or on it.
  abbrev pub IsOff : Str → Type 0
  IsOff e = contains net ip (parse_host net e) ≡ some false

  abbrev pub IsOn : Str → Type 0
  IsOn e = contains net ip (parse_host net e) ≡ some true

  -- The address of the connection is on the list.
  abbrev pub IsRemoteOn : Type 0
  IsRemoteOn =
      (host : Str) × (net.split_host_port c.remote_addr ≡ some host)
      × (contains net ip host ≡ some true)

  -- An entry is on the list behind entries off it, or all are off it and the connection is on it.
  abbrev pub Admits : List Str → Type 0
  Admits es =
      ((before : List Str) × (e : Str) × (after : List Str) × (es ≡ before ++ e ∷ after)
        × All IsOff before
        × IsOn e)
      ⊎ (All IsOff es × IsRemoteOn)

  verdict_sound :
      (addr : Str) (invalid : List Str) (o : Option Bool)
      → verdict net addr invalid o ≡ none
      → o ≡ some true
  verdict_sound addr invalid none h = cc
  verdict_sound addr invalid (some true) h = refl
  verdict_sound addr invalid (some false) h = cc

  host_sound :
      (invalid : List Str) (o : Option Str)
      → net.split_host_port c.remote_addr ≡ o
      → check_host net ip c.remote_addr invalid o ≡ none
      → IsRemoteOn
  host_sound invalid none e h = cc
  host_sound invalid (some host) e h = (host, e, verdict_sound host _ (contains net ip host) h)

  remote_complete : (invalid : List Str) → IsRemoteOn → check_remote net ip c invalid ≡ none
  remote_complete invalid (host, e, on) = rw e (rw on refl)

  Admits-cons : (e : Str) (es : List Str) → IsOff e → Admits es → Admits (e ∷ es)
  Admits-cons e es off (inl (before, x, after, split, offs, on)) =
      inl (e ∷ before, x, after, ap (◌∷◌ e) split, (off, offs), on)
  Admits-cons e es off (inr (offs, remote)) = inr ((off, offs), remote)

  entry_sound :
      (e : Str) (es : List Str) (o : Option Bool) (rest : Option Refusal)
      → contains net ip (parse_host net e) ≡ o
      → on_entry net (parse_host net e) o rest ≡ none
      → (rest ≡ none → Admits es)
      → Admits (e ∷ es)
  entry_sound e es none rest same h k = cc
  entry_sound e es (some true) rest same h k = inl ([], e, es, refl, tt, same)
  entry_sound e es (some false) rest same h k = Admits-cons e es same (k h)

  entries_sound : (invalid es : List Str) → check_entries net ip c invalid es ≡ none → Admits es
  unfolding check_entries
  entries_sound invalid [] h =
      inr (tt, host_sound invalid (net.split_host_port c.remote_addr) refl h)
  entries_sound invalid (e ∷ es) h =
      entry_sound e es (contains net ip (parse_host net e))
        (check_entries net ip c (invalid ++ e ∷ []) es) refl h
        (entries_sound (invalid ++ e ∷ []) es)

  unlisted_complete :
      (invalid es : List Str) → All IsOff es → IsRemoteOn → check_entries net ip c invalid es ≡ none
  unfolding check_entries
  unlisted_complete invalid [] offs remote = remote_complete invalid remote
  unlisted_complete invalid (e ∷ es) (off, offs) remote =
      rw off (unlisted_complete (invalid ++ e ∷ []) es offs remote)

  found_complete :
      (invalid before : List Str) (e : Str) (after : List Str)
      → All IsOff before
      → IsOn e
      → check_entries net ip c invalid (before ++ e ∷ after) ≡ none
  unfolding check_entries
  found_complete invalid [] e after offs on = rw on refl
  found_complete invalid (x ∷ before) e after (off, offs) on =
      rw off (found_complete (invalid ++ x ∷ []) before e after offs on)

  entries_complete : (invalid es : List Str) → Admits es → check_entries net ip c invalid es ≡ none
  entries_complete invalid es (inl (before, e, after, split, offs, on)) =
      ap (check_entries net ip c invalid) split ∙ found_complete invalid before e after offs on
  entries_complete invalid es (inr (offs, remote)) = unlisted_complete invalid es offs remote

  -- A client of a white list that reads X-Forwarded-For, and is not switched off, passes
  -- exactly if an entry of that header is an address on the list and all entries before it are
  -- addresses off it, or all entries are addresses off it and the address of the connection is
  -- on it; an entry that is no address, such as one behind a space, lets nothing behind it
  -- count.
  pub is_authorized_iff :
      ip.insecure ≡ false
      → ip.use_x_forwarded_for ≡ true
      → (is_authorized net ip c ≡ none) ↔ Admits (entries net c.x_forwarded_for)
  unfolding is_authorized
  is_authorized_iff secure forwarded =
      let checked : is_authorized net ip c
          ≡ check_entries net ip c [] (entries net c.x_forwarded_for) =
        ap
          (λ b.
            if b
            then none
            else if ip.use_x_forwarded_for
            then check_entries net ip c [] (entries net c.x_forwarded_for)
            else check_remote net ip c [])
          secure
        ∙ ap
            (λ b.
              if b
              then check_entries net ip c [] (entries net c.x_forwarded_for)
              else check_remote net ip c [])
            forwarded in
      (
        λ h. entries_sound [] (entries net c.x_forwarded_for) (sym checked ∙ h),
        λ h. checked ∙ entries_complete [] (entries net c.x_forwarded_for) h,
      )
