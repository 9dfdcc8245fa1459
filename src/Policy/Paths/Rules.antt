-- ===== src/Policy/Paths/Rules.antt =====
-- packages/policy/src/paths.ts: the frozen tables.
use qwen_harness.Prelude.{Bool, true, false, List, [], ◌∷◌, String, Text, str}

pub data ProtectedClass : Type 0 where
  git_internal credential_file user_credential_store system_path : ProtectedClass
  daemon_socket metadata_endpoint : ProtectedClass

pub data AccessKind : Type 0 where
  read write : AccessKind

-- What a rule covers: `W` or `RW`.
pub data Coverage : Type 0 where
  write_only read_write : Coverage

pub record ProtectedPathRule : Type 0 where
  pub id : Text
  pub class : ProtectedClass
  pub patterns : List Text
  pub applies : Coverage
  pub workspace_exempt : Bool
  pub why : Text

-- `rule.appliesTo.includes(access)`
abbrev covers : Coverage → AccessKind → Bool
covers write_only read = false
covers _ _ = true

unfoldable pub applies_to : ProtectedPathRule → AccessKind → Bool
applies_to rule access = covers rule.applies access

texts : List String → List Text
texts [] = []
texts (s ∷ ss) = str s ∷ texts ss

git_internal_rule : ProtectedPathRule
unfolding texts
git_internal_rule = record {
  id = str "git-internal";
  class = git_internal;
  patterns = texts ("**/.git" ∷ "**/.git/**" ∷ []);
  applies = write_only;
  workspace_exempt = false;
  why = str "repository .git/** writes are reachable only through the dedicated validated Git tool";
}

dotenv_rule : ProtectedPathRule
unfolding texts
dotenv_rule = record {
  id = str "dotenv";
  class = credential_file;
  patterns = texts ("**/.env" ∷ "**/.env.*" ∷ []);
  applies = read_write;
  workspace_exempt = false;
  why = str "environment files routinely hold live credentials";
}

private_key_material_rule : ProtectedPathRule
unfolding texts
private_key_material_rule = record {
  id = str "private-key-material";
  class = credential_file;
  patterns = texts ("**/*.pem" ∷ "**/*.key" ∷ "**/*.p12" ∷ []);
  applies = read_write;
  workspace_exempt = false;
  why = str "private key material";
}

package_registry_credentials_rule : ProtectedPathRule
unfolding texts
package_registry_credentials_rule = record {
  id = str "package-registry-credentials";
  class = credential_file;
  patterns = texts ("**/.npmrc" ∷ "**/.pypirc" ∷ []);
  applies = read_write;
  workspace_exempt = false;
  why = str "package registry tokens";
}

netrc_rule : ProtectedPathRule
unfolding texts
netrc_rule = record {
  id = str "netrc";
  class = credential_file;
  patterns = texts ("**/.netrc" ∷ "**/_netrc" ∷ []);
  applies = read_write;
  workspace_exempt = false;
  why = str "machine credentials for arbitrary hosts";
}

git_credentials_rule : ProtectedPathRule
unfolding texts
git_credentials_rule = record {
  id = str "git-credentials";
  class = credential_file;
  patterns =
      texts ("**/.git-credentials" ∷ "**/.git/credentials" ∷ "**/.config/git/credentials" ∷ []);
  applies = read_write;
  workspace_exempt = false;
  why = str "Git credential files hold plaintext forge tokens";
}

ssh_rule : ProtectedPathRule
unfolding texts
ssh_rule = record {
  id = str "ssh";
  class = user_credential_store;
  patterns = texts ("~/.ssh" ∷ "~/.ssh/**" ∷ []);
  applies = read_write;
  workspace_exempt = false;
  why = str "SSH private keys and known-hosts";
}

aws_rule : ProtectedPathRule
unfolding texts
aws_rule = record {
  id = str "aws";
  class = user_credential_store;
  patterns = texts ("~/.aws" ∷ "~/.aws/**" ∷ []);
  applies = read_write;
  workspace_exempt = false;
  why = str "AWS access keys";
}

gcloud_rule : ProtectedPathRule
unfolding texts
gcloud_rule = record {
  id = str "gcloud";
  class = user_credential_store;
  patterns = texts ("~/.config/gcloud" ∷ "~/.config/gcloud/**" ∷ []);
  applies = read_write;
  workspace_exempt = false;
  why = str "Google Cloud application-default credentials";
}

kube_rule : ProtectedPathRule
unfolding texts
kube_rule = record {
  id = str "kube";
  class = user_credential_store;
  patterns = texts ("~/.kube" ∷ "~/.kube/**" ∷ []);
  applies = read_write;
  workspace_exempt = false;
  why = str "Kubernetes cluster credentials";
}

docker_config_rule : ProtectedPathRule
unfolding texts
docker_config_rule = record {
  id = str "docker-config";
  class = user_credential_store;
  patterns = texts ("~/.docker/config.json" ∷ []);
  applies = read_write;
  workspace_exempt = false;
  why = str "Docker registry auth";
}

gh_hosts_rule : ProtectedPathRule
unfolding texts
gh_hosts_rule = record {
  id = str "gh-hosts";
  class = user_credential_store;
  patterns = texts ("~/.config/gh/hosts.yml" ∷ []);
  applies = read_write;
  workspace_exempt = false;
  why = str "GitHub CLI OAuth token";
}

xdg_credential_stores_rule : ProtectedPathRule
unfolding texts
xdg_credential_stores_rule = record {
  id = str "xdg-credential-stores";
  class = user_credential_store;
  patterns = texts (
      "~/.config/containers/auth.json" ∷ "~/.local/share/keyrings/**" ∷ "~/.gnupg" ∷ "~/.gnupg/**"
      ∷ []);
  applies = read_write;
  workspace_exempt = false;
  why = str "equivalent XDG credential stores";
}

system_etc_rule : ProtectedPathRule
unfolding texts
system_etc_rule = record {
  id = str "system-etc";
  class = system_path;
  patterns = texts ("/etc" ∷ "/etc/**" ∷ []);
  applies = read_write;
  workspace_exempt = true;
  why = str "system configuration, including shadow and PAM";
}

system_proc_rule : ProtectedPathRule
unfolding texts
system_proc_rule = record {
  id = str "system-proc";
  class = system_path;
  patterns = texts ("/proc" ∷ "/proc/**" ∷ []);
  applies = read_write;
  workspace_exempt = true;
  why = str "kernel and process introspection, including other processes’ environments";
}

system_sys_rule : ProtectedPathRule
unfolding texts
system_sys_rule = record {
  id = str "system-sys";
  class = system_path;
  patterns = texts ("/sys" ∷ "/sys/**" ∷ []);
  applies = read_write;
  workspace_exempt = true;
  why = str "kernel object tree";
}

system_dev_rule : ProtectedPathRule
unfolding texts
system_dev_rule = record {
  id = str "system-dev";
  class = system_path;
  patterns = texts ("/dev" ∷ "/dev/**" ∷ []);
  applies = read_write;
  workspace_exempt = true;
  why = str "raw devices";
}

system_boot_rule : ProtectedPathRule
unfolding texts
system_boot_rule = record {
  id = str "system-boot";
  class = system_path;
  patterns = texts ("/boot" ∷ "/boot/**" ∷ []);
  applies = read_write;
  workspace_exempt = true;
  why = str "boot loader and kernel images";
}

system_root_home_rule : ProtectedPathRule
unfolding texts
system_root_home_rule = record {
  id = str "system-root-home";
  class = system_path;
  patterns = texts ("/root" ∷ "/root/**" ∷ []);
  applies = read_write;
  workspace_exempt = true;
  why = str "the root account's home directory";
}

daemon_sockets_rule : ProtectedPathRule
unfolding texts
daemon_sockets_rule = record {
  id = str "daemon-sockets";
  class = daemon_socket;
  patterns = texts (
      "/var/run/docker.sock" ∷ "/run/docker.sock" ∷ "/var/run/containerd/**" ∷ "/run/containerd/**"
      ∷ "/run/podman/**" ∷ "/var/run/podman/**" ∷ "/run/crio/**" ∷ "/run/user/*/podman/**"
      ∷ "/run/systemd/private" ∷ []);
  applies = read_write;
  workspace_exempt = false;
  why =
      str
        "a container/daemon socket is root-equivalent: it can mount the host and escape any sandbox";
}

unfoldable pub protected_path_rules : List ProtectedPathRule
unfolding git_internal_rule dotenv_rule private_key_material_rule package_registry_credentials_rule
    netrc_rule git_credentials_rule ssh_rule aws_rule gcloud_rule kube_rule docker_config_rule
    gh_hosts_rule xdg_credential_stores_rule system_etc_rule system_proc_rule system_sys_rule
    system_dev_rule system_boot_rule system_root_home_rule daemon_sockets_rule
protected_path_rules =
    git_internal_rule ∷ dotenv_rule ∷ private_key_material_rule ∷ package_registry_credentials_rule
    ∷ netrc_rule ∷ git_credentials_rule ∷ ssh_rule ∷ aws_rule ∷ gcloud_rule ∷ kube_rule
    ∷ docker_config_rule ∷ gh_hosts_rule ∷ xdg_credential_stores_rule ∷ system_etc_rule
    ∷ system_proc_rule ∷ system_sys_rule ∷ system_dev_rule ∷ system_boot_rule
    ∷ system_root_home_rule ∷ daemon_sockets_rule ∷ []

unfoldable pub metadata_hosts : List Text
unfolding texts
metadata_hosts = texts (
    "169.254.169.254" ∷ "metadata.google.internal" ∷ "metadata.goog" ∷ "100.100.100.100"
    ∷ "fd00:ec2::254" ∷ "[fd00:ec2::254]" ∷ [])

unfoldable pub git_hook_patterns : List Text
unfolding texts
git_hook_patterns =
    texts
      ("**/.git/hooks/**" ∷ "**/.husky/**" ∷ "**/.pre-commit-config.yaml" ∷ "**/.githooks/**" ∷ [])

unfoldable pub package_patterns : List Text
unfolding texts
package_patterns = texts (
    "**/package.json" ∷ "**/package-lock.json" ∷ "**/pnpm-lock.yaml" ∷ "**/pnpm-workspace.yaml"
    ∷ "**/yarn.lock" ∷ "**/npm-shrinkwrap.json" ∷ "**/setup.py" ∷ "**/pyproject.toml"
    ∷ "**/requirements.txt" ∷ "**/Pipfile" ∷ "**/Cargo.toml" ∷ "**/Gemfile" ∷ "**/*.gemspec"
    ∷ "**/Makefile" ∷ "**/GNUmakefile" ∷ "**/build.gradle" ∷ "**/pom.xml" ∷ [])

unfoldable pub executable_patterns : List Text
unfolding texts
executable_patterns = texts (
    "**/*.sh" ∷ "**/*.bash" ∷ "**/*.zsh" ∷ "**/*.fish" ∷ "**/*.ps1" ∷ "**/*.bat" ∷ "**/*.cmd"
    ∷ "**/*.exe" ∷ "**/*.run" ∷ "**/*.appimage" ∷ [])
