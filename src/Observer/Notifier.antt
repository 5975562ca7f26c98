-- ===== src/Observer/Notifier.antt =====
-- startDepositNotifier of internal/blockchain_observer/workers.go, the only reader of the channel of
-- deposits, beside the workers that offer to it: the steps of both, in any order.
use telegram_ads_market.Common.{◌<◌, ◌≤◌, ◌≡◌, refl, sym, ◌∙◌, List, [], ◌∷◌, ◌++◌, length, arith}
use telegram_ads_market.Observer.Deposits.{DepositNote, deposit_events_size, offer}

-- The notifier waits for a note, pushes one to the stream, or puts one back after an error.
pub data Phase : Type 0 where
  waiting : Phase
  adding putting_back : DepositNote → Phase

pub record Channel : Type 0 where
  pub queue : List DepositNote
  pub phase : Phase
  pub published : List DepositNote

pub data Move : Channel → Channel → Type 0 where
  offers : (note : DepositNote) (c : Channel) → Move c (record c { queue = offer note c.queue })
  takes :
      (note : DepositNote) (rest : List DepositNote) (c : Channel)
      → c.phase ≡ waiting
      → c.queue ≡ note ∷ rest
      → Move c (record c { queue = rest; phase = adding note })
  adds :
      (note : DepositNote) (c : Channel)
      → c.phase ≡ adding note
      → Move c (record c { phase = waiting; published = c.published ++ note ∷ [] })
  fails :
      (note : DepositNote) (c : Channel)
      → c.phase ≡ adding note
      → Move c (record c { phase = putting_back note })
  puts_back :
      (note : DepositNote) (c : Channel)
      → c.phase ≡ putting_back note
      → length c.queue < deposit_events_size
      → Move c (record c { queue = c.queue ++ note ∷ []; phase = waiting })

pub data Moves (c : Channel) : Channel → Type 0 where
  rests : Moves c c
  moves : {d e : Channel} → Moves c d → Move d e → Moves c e

-- The notifier has a note to put back, and the channel is full.
pub record IsStuck (c : Channel) : Type 0 where
  pub note : DepositNote
  pub holds : c.phase ≡ putting_back note
  pub full : deposit_events_size ≤ length c.queue

pub record Same (c d : Channel) : Type 0 where
  pub stuck : IsStuck d
  pub queue : d.queue ≡ c.queue
  pub published : d.published ≡ c.published

full_drops :
    (note : DepositNote) (queue : List DepositNote)
    → deposit_events_size ≤ length queue
    → offer note queue ≡ queue
unfolding offer
full_drops note queue full = ground arith

stuck_step : {c d : Channel} → Move c d → IsStuck c → Same c d
stuck_step (offers note c) s =
    let same = full_drops note c.queue s.full in
    record {
      stuck = record { note = s.note; holds = s.holds; full = rw same s.full };
      queue = same;
      published = refl;
    }
stuck_step (takes note rest c idle e) s = absurd (waiting≢back (sym idle ∙ s.holds))
  where
    waiting≢back : {n : DepositNote} → waiting ≡ putting_back n → ⊥
    waiting≢back e = cc
stuck_step (adds note c busy) s = absurd (cc (sym busy ∙ s.holds))
stuck_step (fails note c busy) s = absurd (cc (sym busy ∙ s.holds))
stuck_step (puts_back note c back room) s = absurd (room_in_full c.queue room s.full)
  where
    room_in_full :
        (q : List DepositNote) → length q < deposit_events_size → deposit_events_size ≤ length q → ⊥
    room_in_full q a b = omega arith

-- Once the notifier has a note to put back into a full channel, nothing moves again: it stays so, the
-- channel keeps what it holds, and no further deposit is published, whatever the workers offer.
pub full_channel_stops_notifier : {c d : Channel} → Moves c d → IsStuck c → Same c d
full_channel_stops_notifier rests s = record { stuck = s; queue = refl; published = refl }
full_channel_stops_notifier (moves h m) s =
    let before = full_channel_stops_notifier h s in
    let after = stuck_step m before.stuck in
    record {
      stuck = after.stuck;
      queue = after.queue ∙ before.queue;
      published = after.published ∙ before.published;
    }
