-- ===== src/Privileged/Policy.antt =====
-- src/privileged/managed-admin-policy.ts
use remote_ops_mcp.Prelude.{
  String, Bool, false, not, ◌&&◌, ◌||◌, List, [], ◌∷◌, ◌==◌, leb, if◌then◌else◌, any, includes,
  text_length, any_code, is_break, split_on, strip_slashes, concat, starts_with,
}

abbrev pub managed_admin_capability : String
managed_admin_capability = "host.managed_admin"

abbrev pub managed_admin_default_programs : List String
managed_admin_default_programs =
    "apt-get" ∷ "apt" ∷ "dpkg" ∷ "systemctl" ∷ "journalctl" ∷ "docker" ∷ "git" ∷ "curl" ∷ "wget"
    ∷ "install" ∷ "cp" ∷ "mv" ∷ "rm" ∷ "rmdir" ∷ "mkdir" ∷ "chmod" ∷ "chown" ∷ "chgrp" ∷ "ln"
    ∷ "tar" ∷ "unzip" ∷ "ufw" ∷ "firewall-cmd" ∷ "ip" ∷ "ss" ∷ "hostnamectl" ∷ "timedatectl"
    ∷ "sysctl" ∷ "mount" ∷ "umount" ∷ "lsblk" ∷ "df" ∷ "du" ∷ []

abbrev pub managed_admin_hard_deny : List String
managed_admin_hard_deny =
    "bash" ∷ "sh" ∷ "dash" ∷ "zsh" ∷ "fish" ∷ "sudo" ∷ "su" ∷ "pkexec" ∷ "python" ∷ "python3"
    ∷ "node" ∷ "perl" ∷ "ruby" ∷ "php" ∷ []

abbrev pub managed_admin_default_cwds : List String
managed_admin_default_cwds = "/opt/wandora/ops-workspace" ∷ "/opt/wandora" ∷ []

-- An absolute path of bounded length, with no control character and no ".." segment.
unfoldable pub is_plain_cwd : String → Bool
unfolding text_length any_code split_on includes
is_plain_cwd cwd =
    starts_with cwd "/"
    && (leb (text_length cwd) 1024
        && (not (any_code is_break cwd) && not (includes ".." (split_on b'/' cwd))))

unfoldable pub clean_cwd : String → String
unfolding strip_slashes
clean_cwd value = let stripped = strip_slashes value in if stripped == "" then "/" else stripped

-- The candidate is the root or lies below it.
unfoldable pub is_below : String → String → Bool
is_below candidate root = candidate == root || starts_with candidate (concat root "/")

unfoldable pub cwd_lexically_allowed : String → List String → Bool
cwd_lexically_allowed cwd roots =
    if is_plain_cwd cwd then any (λ raw. is_below (clean_cwd cwd) (clean_cwd raw)) roots else false
