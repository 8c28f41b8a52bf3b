-- ===== src/Stream/Routing/Channels.antt =====
-- The set of links while its channels are wired one by one, and what releasing it then destroys
-- (src/pwf_stream_routing.c).
use tinypipewire.Common.{
  ℕ, zero, suc, ◌+◌, ◌≡◌, refl, sym, ap, ◌∙◌, Bool, true, false, List, [], ◌∷◌, ◌++◌, take,
  replicate, arith, some,
}
use tinypipewire.Stream.State.{Stream}
use tinypipewire.Stream.Links.{proxies_from, release_links}
use tinypipewire.Stream.Routing.{put_proxy}

-- The n channels from i on.
unfoldable pub channels_from : ℕ → ℕ → List ℕ
channels_from i zero = []
channels_from i (suc n) = i ∷ channels_from (suc i) n

-- The array when its first `wired` links have a proxy and the `left` after them have none.
unfoldable pub marks : ℕ → ℕ → List Bool
marks zero left = replicate left false
marks (suc wired) left = true ∷ marks wired left

pub put_proxy-marks : (i left : ℕ) → put_proxy i (marks i (suc left)) ≡ marks (suc i) left
unfolding put_proxy marks
put_proxy-marks zero left = refl
put_proxy-marks (suc i) left = ap (λ l. true ∷ l) (put_proxy-marks i left)

proxies_from-wired : (k i left : ℕ) → proxies_from k (take i (marks i left)) ≡ channels_from k i
unfolding proxies_from marks channels_from
proxies_from-wired k zero left = refl
proxies_from-wired k (suc i) left = ap (λ l. k ∷ l) (proxies_from-wired (suc k) i left)

proxies_from-next :
    (k i left : ℕ) → proxies_from k (take (suc i) (marks i (suc left))) ≡ channels_from k i
unfolding proxies_from marks channels_from
proxies_from-next k zero left = refl
proxies_from-next k (suc i) left = ap (λ l. k ∷ l) (proxies_from-next (suc k) i left)

channels_from-last : (k n : ℕ) → channels_from k (suc n) ≡ channels_from k n ++ (k + n) ∷ []
unfolding channels_from
channels_from-last k zero = ap (λ m. m ∷ []) (omega arith)
channels_from-last k (suc n) =
    ap (λ l. k ∷ l)
      (channels_from-last (suc k) n
        ∙ ap (λ m. channels_from (suc k) n ++ m ∷ []) {x = suc k + n} {y = k + suc n} (omega arith))

pub channels_from-suc : (n : ℕ) → channels_from 0 n ++ n ∷ [] ≡ channels_from 0 (suc n)
channels_from-suc n =
    ap (λ m. channels_from 0 n ++ m ∷ []) {x = n} {y = 0 + n} (omega arith)
    ∙ sym (channels_from-last 0 n)

-- A stream whose links to a device have come to a point: the first `wired` have a proxy, the `left` after
-- them have none, and `n` of them count.
abbrev pub wired_to : ℕ → ℕ → ℕ → ℕ → Stream → Stream
wired_to target wired left n stream = record stream {
  links = some (record { proxies = marks wired left; n_links = n; target_node_id = target });
}

-- Releasing the set after channel i got its proxy destroys those of the channels up to it, and after it got
-- none, those of the channels before it.
pub release_links-wired :
    (target i left : ℕ) (stream : Stream)
    → (release_links (wired_to target (suc i) left (suc i) stream)).1 ≡ channels_from 0 (suc i)
unfolding release_links
release_links-wired target i left stream = proxies_from-wired 0 (suc i) left

pub release_links-next :
    (target i left : ℕ) (stream : Stream)
    → (release_links (wired_to target i (suc left) (suc i) stream)).1 ≡ channels_from 0 i
unfolding release_links
release_links-next target i left stream = proxies_from-next 0 i left
