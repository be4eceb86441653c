-- ===== src/Native/Environ.antt =====
-- The environment of the processes of a pod whose variables were populated.
use native_kubelet.Base.{Str, codes, ◌++◌, List, map, ◌≡◌}
use native_kubelet.Result.{ok}
use native_kubelet.Kube.{Pod, Container, EnvVar}
use native_kubelet.Native.Env.{EnvSources, build_envs}

-- `NAME=VALUE` of a variable with a plain value
abbrev pub plain_env : EnvVar → Str
plain_env e = e.name ++ codes "=" ++ e.value

module _ (s : EnvSources) (pod : Pod) where
  -- The environment of the container's process is that of the kubelet and then its plain variables.
  abbrev pub HasEnviron : List Str → Container → Type 0
  HasEnviron environ c = build_envs s pod c.env environ ≡ ok (environ ++ map plain_env c.env)
